-- ===== src/Face/Running.antt =====
-- How the engine runs the functions of the face detector in the memory that the service shares with
-- them.
use laqista.Base.Word.{Byte}
use laqista.Base.{
  ℕ, ◌+◌, ◌-◌, ◌≡◌, refl, ◌∙◌, ap, String, List, length, Option, Outcome, ok, err, panic, blocked,
  arith,
}
use laqista.Base.Int.{ℤ}
use laqista.Base.Task.{Task}
use laqista.Wasm.{Memory, Bytes, copy, contents, with_used_len}
use laqista.Wasm.Pointers.{pointer}
use laqista.Wasm.Writes.{contents-copy}
use laqista.Wasm.Messages.{at}
use laqista.Wasm.Runner.{Codec, WasmRunner, InvokeResult, memory_size, compile_with, call}
use laqista.Wasm.Exits.{len}
use laqista.Wasm.Returning.{returning}
use laqista.Face.{
  Detection, DetectionRequest, DetectionReply, InferRequest, InferReply, main, get_probability,
}
use laqista.Face.Server.{Host, compile}

-- How the engine runs a function of the application.
abbrev pub entered : Outcome String (ℤ × Memory) → Task WasmRunner String ℤ
entered (ok result) r = returning result r
entered (err e) r = (err e, r)
entered panic r = (panic, r)
entered blocked r = (blocked, r)

-- The daemon's call of a function that comes to an end.
pub call-entered :
    {N : Type 0} (results : Codec (Option InvokeResult)) (out : Codec N)
    (f : Bytes → Outcome String (ℤ × Memory)) (x : ℤ × Memory) (r : WasmRunner)
    → f r.bytes ≡ ok x
    → call results out (λ r. entered (f r.bytes) r) r ≡ call results out (returning x) r
unfolding call
call-entered results out f x r ended = rw ended refl

-- The memory of a function that is called with a message at an address.
abbrev pub called_with : List Byte → ℕ → Bytes → Memory
called_with message p bytes = with_used_len (copy message p bytes) p (length message)

sub_start : (p n : ℕ) → p + n - p ≡ n
sub_start p n = omega arith

module _ {M : Type 0} (codec : Codec M) where
  -- A function finds the message that it is called with.
  pub decode-called_with :
      (m : M) (p : ℕ) (bytes : Bytes)
      → let memory = called_with (codec.encode m) p bytes in
        codec.decode (contents memory.bytes memory.head (len memory)) ≡ ok m
  unfolding with_used_len
  decode-called_with m p bytes =
      ap (λ n. codec.decode (contents (copy (codec.encode m) p bytes) p n))
        (sub_start p (length (codec.encode m)))
      ∙ ap codec.decode (contents-copy (codec.encode m) p bytes)
      ∙ codec.decode-encode m

module _ (F : Type 0) ⦃h : Host F⦄ where
  pub compile-at :
      (wasm : List ℕ) (bytes : Bytes)
      → h.instantiate wasm ≡ ok bytes
      → compile F wasm ≡ ok (at bytes memory_size 0 0)
  unfolding compile_with
  compile-at wasm bytes made = rw made refl

module _ ⦃d : Detection⦄ ⦃h : Host d.F32⦄ (results : Codec (Option InvokeResult))
    (nothing : Codec (Unit {0})) where
  -- The compiled module has the function `main` of the application.
  abbrev pub RunsMain : Codec DetectionRequest → Codec (InferRequest d.F32) → List ℕ → Type 0
  RunsMain requests inputs wasm =
      (p n : ℕ)
      → h.function wasm "main" (pointer p n)
        ≡ (λ r. entered (main results nothing requests inputs r.bytes p n) r)

  -- The compiled module has the function `get_probability` of the application.
  abbrev pub RunsProbability :
      Codec (InferReply d.F32) → Codec (DetectionReply d.F32) → List ℕ → Type 0
  RunsProbability outputs replies wasm =
      (p n : ℕ)
      → h.function wasm "get_probability" (pointer p n)
        ≡ (λ r. entered (get_probability results nothing outputs replies r.bytes p n) r)
