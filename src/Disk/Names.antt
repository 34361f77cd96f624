-- ===== src/Disk/Names.antt =====
-- What is read from the name that a saved deployment gives its directory.
use Prim.Native.Char.{Char, code}
use Prim.Native.String.{String}
use laqista.Disk.{whole}
use laqista.Base.{
  ℕ, ◌<◌, ◌^◌, ◌≡◌, refl, ◌∙◌, true, false, not, ◌==◌, if◌then◌else◌, List, none, some, arith,
  lt→ltb, subst,
}
use laqista.Base.Int.{ℤ, pos, negsuc, IsI64, ltb_ℤ}
use laqista.Chars.{◌⊕◌, is_digit, is_empty, all_chars, value, taken-append, left-append, ⊕-nil}
use laqista.Chars.Decimal.{decimal, value-decimal, decimal-all_chars, decimal-is_empty}
use laqista.Disk.Naming.{IsHash, Hex, is_dash, first_part, parse_i64, read, dir_name}

digits-no_dash :
    (s : String) → all_chars is_digit s ≡ true → all_chars (λ c. not (is_dash c)) s ≡ true
unfolding all_chars
digits-no_dash String.[] h = refl
digits-no_dash (String.◌∷◌ c s) h = ground (arith, digits-no_dash s)

first_digit :
    (c : Char) (s : String)
    → all_chars is_digit (String.◌∷◌ c s) ≡ true
    → (is_dash (code c) ≡ false) × ((code c == b'+') ≡ false)
unfolding all_chars
first_digit c s h = (ground arith, ground arith)

-- One or more digits are read as the number that they spell.
parse_i64-digits :
    (s : String)
    → is_empty s ≡ false
    → all_chars is_digit s ≡ true
    → value s < 2 ^ 63
    → parse_i64 s ≡ some (pos (value s))
unfolding all_chars
parse_i64-digits String.[] e h fits = cc
parse_i64-digits (String.◌∷◌ c s) e h fits =
    let (no_dash, no_plus) = first_digit c s h in
    rw no_dash (rw no_plus (rw h (rw (lt→ltb (value (String.◌∷◌ c s)) (2 ^ 63) fits) refl)))

module _ ⦃h : Hex⦄ where
  open h use {encode, from_hex, single, from_hex-encode, encode-no_dash}

  hash-part : (hash : List ℕ) → IsHash hash → first_part (encode hash) ≡ encode hash
  hash-part hash long =
      subst (λ s. first_part s ≡ encode hash) (⊕-nil (encode hash))
        (taken-append (λ c. not (is_dash c)) (encode hash) "" (encode-no_dash hash long) refl)

  pub read-positive :
      (n nanos : ℕ) (hash : List ℕ)
      → IsHash hash
      → single (pos n) ≡ true
      → n < 2 ^ 63
      → read
          (dir_name (record { timestamp = record { seconds = pos n; nanos = nanos }; hash = hash }))
        ≡ some (record { timestamp = whole (pos n); hash = hash })
  unfolding read dir_name
  read-positive n nanos hash long real fits =
      let shown = decimal-all_chars 20 n in
      let apart = digits-no_dash (decimal 20 n) shown in
      let exact = value-decimal 20 n (omega arith) in
      rw (taken-append (λ c. not (is_dash c)) (decimal 20 n) ("-" ⊕ encode hash) apart refl) (
        rw (parse_i64-digits (decimal 20 n) (decimal-is_empty 19 n) shown (omega (arith, exact))) (
          rw exact (
            rw real (
              rw (left-append (λ c. not (is_dash c)) (decimal 20 n) ("-" ⊕ encode hash) apart refl)
                (rw (hash-part hash long) (rw (from_hex-encode hash long) refl))))))

  -- A deployment that was saved at a time since 1970, and whose hash has 32 bytes, is read back
  -- from the name of its directory, without the part of a second. One that was saved before is not
  -- read: its name starts with the sign.
  pub read-dir_name :
      (timestamp : ℤ) (nanos : ℕ) (hash : List ℕ)
      → IsHash hash
      → single timestamp ≡ true
      → IsI64 timestamp
      → read (
          dir_name
            (record { timestamp = record { seconds = timestamp; nanos = nanos }; hash = hash }))
        ≡ (if ltb_ℤ timestamp (pos 0)
            then none
            else some (record { timestamp = whole timestamp; hash = hash }))
  unfolding read dir_name
  read-dir_name (pos n) nanos hash long real fits =
      read-positive n nanos hash long real (omega arith) ∙ ground arith
  read-dir_name (negsuc n) nanos hash long real fits = ground arith
