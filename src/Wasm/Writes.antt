-- ===== src/Wasm/Writes.antt =====
-- What an application writes for the daemon stays as it was written.
use laqista.Base.Word.{Byte}
use laqista.Base.{ℕ, suc, ◌+◌, ◌≤◌, ◌<◌, ◌≡◌, refl, ◌∙◌, List, [], ◌∷◌, length, arith}
use laqista.Wasm.{Bytes, Memory, copy, contents, write_bytes}

copy-below :
    (xs : List Byte) (start : ℕ) (bytes : Bytes) (k : ℕ)
    → k < start
    → copy xs start bytes k ≡ bytes k
unfolding copy
copy-below [] start bytes k h = refl
copy-below (x ∷ xs) start bytes k h = ground (arith, copy-below xs (suc start) bytes k)

pub contents-copy-below :
    (xs : List Byte) (start : ℕ) (bytes : Bytes) (t n : ℕ)
    → t + n ≤ start
    → contents (copy xs start bytes) t n ≡ contents bytes t n
unfolding contents
contents-copy-below xs start bytes t ℕ.zero h = refl
contents-copy-below xs start bytes t (suc n) h =
    ground (arith, copy-below xs start bytes t, contents-copy-below xs start bytes (suc t) n)

-- Bytes that agree from an address on have the same contents there.
contents-eq :
    (a b : Bytes) (t n : ℕ) → ((k : ℕ) → t ≤ k → a k ≡ b k) → contents a t n ≡ contents b t n
unfolding contents
contents-eq a b t ℕ.zero h = refl
contents-eq a b t (suc n) h =
    ground (arith, h t, contents-eq a b (suc t) n (λ k le. h k (omega arith)))

copy-above :
    (x : Byte) (xs : List Byte) (start : ℕ) (bytes : Bytes) (k : ℕ)
    → suc start ≤ k
    → copy (x ∷ xs) start bytes k ≡ copy xs (suc start) bytes k
unfolding copy
copy-above x xs start bytes k h = ground arith

copy-start :
    (x : Byte) (xs : List Byte) (start : ℕ) (bytes : Bytes) → copy (x ∷ xs) start bytes start ≡ x
unfolding copy
copy-start x xs start bytes = ground arith

pub contents-copy :
    (xs : List Byte) (start : ℕ) (bytes : Bytes)
    → contents (copy xs start bytes) start (length xs) ≡ xs
unfolding contents
contents-copy [] start bytes = refl
contents-copy (x ∷ xs) start bytes = rw (
  copy-start x xs start bytes,
  contents-eq (copy (x ∷ xs) start bytes) (copy xs (suc start) bytes) (suc start) (length xs)
      (copy-above x xs start bytes),
  contents-copy xs (suc start) bytes,
)

-- Two writes, one after the other: both slices hold what was written to them, and the second stands
-- right behind the first.
pub write_bytes_apart :
    (m : Memory) (first second : List Byte)
    → let (s, m') = write_bytes m first in
      let (t, m'') = write_bytes m' second in
      (contents m''.bytes s.ptr s.len ≡ first)
      × (contents m''.bytes t.ptr t.len ≡ second)
      × (t.ptr ≡ s.ptr + s.len)
unfolding write_bytes
write_bytes_apart m first second = (
  contents-copy-below second _ _ _ _ (omega arith) ∙ contents-copy first _ _,
  contents-copy second _ _,
  omega arith,
)
