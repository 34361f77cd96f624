-- ===== src/Face/Failing.antt =====
-- What a client is told when the face detector cannot go on.
use laqista.Base.{
  ℕ, ◌+◌, ◌^◌, ◌<◌, ◌≤◌, ◌≡◌, refl, String, length, Option, some, Outcome, ok, err, map_err, ◌>>=◌,
  arith,
}
use laqista.Base.Text.{str_append}
use laqista.Types.{Status, abort}
use laqista.Wasm.{Bytes, copy, with_used_len}
use laqista.Wasm.Messages.{at, write-at}
use laqista.Wasm.Runner.{Codec, InvokeResult, memory_size, write_message, call}
use laqista.Wasm.Exits.{exit_error}
use laqista.Wasm.Returning.{error_of, call-exit_error}
use laqista.Face.{
  Detection, DetectionRequest, DetectionReply, InferRequest, InferReply, input_of, run, main,
}
use laqista.Face.Server.{Host, AbtsractServer}
use laqista.Face.Running.{called_with, entered, RunsMain, decode-called_with, compile-at}
use laqista.Face.Detecting.{detection_on, run_detection}

abbrev pub load_failure : String → String
load_failure = str_append "ERR: Failed to load image: "

-- What the client is told.
abbrev pub client_message : String → Status
client_message e = abort (
    str_append "Failed to call WebAssembly function: "
      (str_append "Error in WASM function: " (load_failure e)))

-- Of two calls, each with a context for its error, the second one fails.
second_fails :
    {A B C : Type 0} (o : Outcome String A) (f g : String → String) (a : A)
    (k : A → Outcome String B) (rest : A → B → Outcome String C) (e : String)
    → o ≡ ok a
    → k a ≡ err e
    → (map_err f o >>= λ x. map_err g (k x) >>= rest x) ≡ err (g e)
second_fails o f g a k rest e first second = rw (first, second) refl

module _ ⦃d : Detection⦄ ⦃h : Host d.F32⦄ (results : Codec (Option InvokeResult))
    (nothing : Codec (Unit {0})) (requests : Codec DetectionRequest)
    (inputs : Codec (InferRequest d.F32)) where
  open d use {F32, load_from_memory}
  open h use {GpuSession, instantiate}

  run-unreadable :
      (msg : DetectionRequest) (bytes : Bytes) (p : ℕ) (e : String)
      → load_from_memory msg.image_png ≡ err e
      → run requests
          (with_used_len (copy (requests.encode msg) p bytes) p (length (requests.encode msg)))
        ≡ err (load_failure e)
  unfolding run with_used_len
  run-unreadable msg bytes p e failed =
      second_fails _ (str_append "ERR: Failed to decode request: ") load_failure msg
        (λ x. load_from_memory x.image_png) (λ x. input_of) e
        (decode-called_with requests msg p bytes) failed

  main-unreadable :
      (msg : DetectionRequest) (bytes : Bytes) (p : ℕ) (e : String)
      → load_from_memory msg.image_png ≡ err e
      → let b = copy (requests.encode msg) p bytes in
        main results nothing requests inputs b p (length (requests.encode msg))
        ≡ ok (
            exit_error results nothing
              (with_used_len b p (length (requests.encode msg)))
              (load_failure e)
              tt)
  unfolding main
  main-unreadable msg bytes p e failed = rw (main, run-unreadable msg bytes p e failed) refl

  -- There is room for the request, the details of the error, and the result.
  abbrev pub HasSpace : DetectionRequest → Bytes → ℕ → ℕ → String → Type 0
  HasSpace msg bytes size start e =
      let all =
        start
        + length (requests.encode msg)
        + length (nothing.encode tt)
        + 1
        + length (
            results.encode (
              some (
                error_of results nothing (called_with (requests.encode msg) start bytes)
                  (load_failure e) tt))) in
      (all < 2 ^ 31) × (all ≤ size)

  call-unreadable :
      (msg : DetectionRequest) (bytes : Bytes) (size s l : ℕ) (e : String)
      → load_from_memory msg.image_png ≡ err e
      → HasSpace msg bytes size (s + l) e
      → let a = requests.encode msg in
        (call results nothing
          (λ r. entered (main results nothing requests inputs r.bytes (s + l) (length a)) r)
          (at (copy a (s + l) bytes) size s (l + length a))).0
        ≡ err (str_append "Error in WASM function: " (load_failure e))
  unfolding call with_used_len
  call-unreadable msg bytes size s l e failed space =
      rw (main-unreadable msg bytes (s + l) e failed) (
        call-exit_error results nothing nothing
          (with_used_len (copy (requests.encode msg) (s + l) bytes) (s + l)
            (length (requests.encode msg)))
          (load_failure e) tt
          (at (copy (requests.encode msg) (s + l) bytes) size s (l + length (requests.encode msg)))
          space)

  detection_on-unreadable :
      (outputs : Codec (InferReply F32)) (replies : Codec (DetectionReply F32))
      (server : AbtsractServer GpuSession) (msg : DetectionRequest) (bytes : Bytes) (size s l : ℕ)
      (e : String)
      → RunsMain results nothing requests inputs server.wasm
      → load_from_memory msg.image_png ≡ err e
      → HasSpace msg bytes size (s + l) e
      → (detection_on F32 results requests inputs outputs replies nothing server msg
          (at bytes size s l)).0
        ≡ err (client_message e)
  unfolding detection_on write_message
  detection_on-unreadable outputs replies server msg bytes size s l e runs failed space =
      rw
        (
          detection_on,
          write-at bytes size s l (requests.encode msg) (omega arith) (omega arith),
          runs (s + l) (length (requests.encode msg)),
          call-unreadable msg bytes size s l e failed space,
        )
        refl

  -- If the picture of a request cannot be loaded, the client is told the cause that the application
  -- gives: the request reaches the application through its memory, and the error comes back through
  -- it. The messages fit into the memory that a compiled module has.
  pub run_detection-unreadable :
      (outputs : Codec (InferReply F32)) (replies : Codec (DetectionReply F32))
      (server : AbtsractServer GpuSession) (msg : DetectionRequest) (bytes : Bytes) (e : String)
      → instantiate server.wasm ≡ ok bytes
      → RunsMain results nothing requests inputs server.wasm
      → load_from_memory msg.image_png ≡ err e
      → HasSpace msg bytes memory_size 0 e
      → run_detection F32 results requests inputs outputs replies nothing server msg
        ≡ err (client_message e)
  unfolding run_detection
  run_detection-unreadable outputs replies server msg bytes e made runs failed space =
      rw (run_detection, compile-at F32 server.wasm bytes made)
        (detection_on-unreadable outputs replies server msg bytes memory_size 0 0 e runs failed
          space)
