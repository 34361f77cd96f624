-- ===== src/Wasm/Messages.antt =====
-- What the daemon writes for an application, and reads back.
use laqista.Base.Word.{Byte}
use laqista.Base.{ℕ, ◌+◌, ◌^◌, ◌≤◌, ◌<◌, ◌≡◌, refl, ap, ◌∙◌, leb, List, length, ok, arith, true}
use laqista.Base.Int.{pos, as_i32, ◌+ℤ◌}
use laqista.Wasm.{WasmPointer, consume, join, Bytes, copy, contents}
use laqista.Wasm.Pointers.{pointer, next-pointer}
use laqista.Wasm.Writes.{contents-copy, contents-copy-below}
use laqista.Wasm.Runner.{Codec, WasmRunner, write, read_bytes, write_message, read_message}

consume-pointer : (s l n : ℕ) → l + n < 2 ^ 31 → consume (pointer s l) (pos n) ≡ pointer s (l + n)
unfolding consume as_i32 ◌+ℤ◌
consume-pointer s l n h = ground arith

pub as_i32-small : (n : ℕ) → n < 2 ^ 31 → as_i32 (pos n) ≡ pos n
unfolding as_i32
as_i32-small n h = ground arith

leb-le : (a b : ℕ) → a ≤ b → leb a b ≡ true
leb-le a b h = ground arith

-- A runner whose pointer takes up `l` bytes from `s` on.
abbrev pub at : Bytes → ℕ → ℕ → ℕ → WasmRunner
at bytes size s l = record { bytes = bytes; size = size; ptr = pointer s l }

pub write-at :
    (bytes : Bytes) (size s l : ℕ) (buffer : List Byte)
    → s + l + length buffer < 2 ^ 31
    → s + l + length buffer ≤ size
    → write buffer (at bytes size s l) ≡ (
      ok (pointer (s + l) (length buffer)),
      at (copy buffer (s + l) bytes) size s (l + length buffer),
    )
unfolding write
write-at bytes size s l buffer small fits =
    rw
      (
        next-pointer s l (omega arith),
        as_i32-small (length buffer) (omega arith),
        leb-le (s + l + length buffer) size fits,
      )
      (rw (next-pointer s l (omega arith), consume-pointer s l (length buffer) (omega arith)) refl)

pub read_bytes-at :
    (bytes : Bytes) (size : ℕ) (ptr : WasmPointer) (start n : ℕ)
    → start + n ≤ size
    → read_bytes (pointer start n) (record { bytes = bytes; size = size; ptr = ptr }) ≡ (
      ok (contents bytes start n),
      record { bytes = bytes; size = size; ptr = join ptr (pointer start n) },
    )
unfolding read_bytes
read_bytes-at bytes size ptr start n fits = rw (leb-le (start + n) size fits)

module _ {M : Type 0} (codec : Codec M) where
  -- A message that has been written is read back from any memory that still holds its bytes.
  pub read_message-at :
      (m : M) (bytes : Bytes) (size start : ℕ) (ptr : WasmPointer)
      → start + length (codec.encode m) ≤ size
      → contents bytes start (length (codec.encode m)) ≡ codec.encode m
      → read_message codec
          (pointer start (length (codec.encode m)))
          (record { bytes = bytes; size = size; ptr = ptr })
        ≡ (
          ok m,
          record {
            bytes = bytes;
            size = size;
            ptr = join ptr (pointer start (length (codec.encode m)));
          },
        )
  unfolding read_message
  read_message-at m bytes size start ptr fits kept =
      rw (read_bytes-at bytes size ptr start (length (codec.encode m)) fits, kept)
        (rw (codec.decode-encode m) refl)

  -- A runner whose pointer takes up `l` bytes from `s` on, with room for two messages below 2 GiB:
  -- both are written, and each is read back as it was, also the first one, after the second.
  pub read_message-write_message :
      (bytes : Bytes) (size s l : ℕ) (first second : M)
      → s + l + length (codec.encode first) + length (codec.encode second) < 2 ^ 31
      → s + l + length (codec.encode first) + length (codec.encode second) ≤ size
      → let r = at bytes size s l in
        let (o, r₁) = write_message codec first r in
        let (o', r₂) = write_message codec second r₁ in
        (p : WasmPointer) × (q : WasmPointer) × (o ≡ ok p)
        × (o' ≡ ok q)
        × ((read_message codec p r₂).0 ≡ ok first)
        × ((read_message codec q r₂).0 ≡ ok second)
  unfolding write_message
  read_message-write_message bytes size s l first second small fits =
      let a = codec.encode first in
      let b = codec.encode second in
      rw
        (
          write-at bytes size s l a (omega arith) (omega arith),
          write-at (copy a (s + l) bytes) size s (l + length a) b (omega arith) (omega arith),
        )
        (
          pointer (s + l) (length a),
          pointer (s + (l + length a)) (length b),
          refl,
          refl,
          ap (λ r. r.0)
              (read_message-at first _ size (s + l) _ (omega arith) (
                contents-copy-below b (s + (l + length a)) _ (s + l) (length a) (omega arith)
                ∙ contents-copy a _ _)),
          ap (λ r. r.0)
              (read_message-at second _ size (s + (l + length a)) _ (omega arith)
                (contents-copy b _ _)),
        )
