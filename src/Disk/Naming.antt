-- ===== src/Disk/Naming.antt =====
-- The directories of src/deployment/database.rs: how a saved deployment names its directory, and
-- how it is read from the name again. The crate `hex` is a parameter, and so is the test whether a
-- number of seconds is one time in the calendar and the zone of the machine.
use Prim.Native.Char.{code}
use Prim.Native.String.{String}
use laqista.Base.{
  ℕ, suc, ◌<◌, ◌+◌, ◌-◌, ◌^◌, ◌≡◌, Bool, true, not, ◌&&◌, ◌||◌, str_eq, Outcome, ok, expect, ◌>>=◌,
  ltb, ◌==◌, if◌then◌else◌, List, Option, none, some, length, All,
}
use laqista.Base.Int.{ℤ, pos, negsuc}
use laqista.Chars.{◌⊕◌, is_digit, is_empty, all_chars, value_from, value, taken, left}
use laqista.Chars.Decimal.{decimal}
use laqista.Disk.{whole, SavedDeployment, Target, onnx, wasm}

-- `Hash`: 32 bytes.
abbrev pub IsHash : List ℕ → Type 0
IsHash hash = (length hash ≡ 32) × All (λ (b : ℕ). b < 256) hash

-- What is asked of `hex` for a hash of 32 bytes: it is read back, and printed in hexadecimal
-- digits, which a `-` is not.
pub record Hex : Type 0 where
  pub encode : List ℕ → String
  pub from_hex : String → Option (List ℕ)
  pub single : ℤ → Bool
  pub from_hex-encode : (hash : List ℕ) → IsHash hash → from_hex (encode hash) ≡ some hash
  pub encode-no_dash :
      (hash : List ℕ) → IsHash hash → all_chars (λ c. not (c == b'-')) (encode hash) ≡ true

-- `f >>= g` on options.
abbrev pub and_then {ℓ κ} : {A : Type ℓ} {B : Type κ} → Option A → (A → Option B) → Option B
and_then none next = none
and_then (some a) next = next a

abbrev pub is_dash : ℕ → Bool
is_dash c = c == b'-'

-- `str::split("-")`: its first part, and what comes behind the first dash, if there is one.
abbrev pub first_part : String → String
first_part s = taken (λ c. not (is_dash c)) s

abbrev pub drop_first : String → Option String
drop_first String.[] = none
drop_first (String.◌∷◌ c s) = some s

abbrev pub behind_dash : String → Option String
behind_dash s = drop_first (left (λ c. not (is_dash c)) s)

-- `str::parse::<i64>`: an optional sign, and then one or more digits of a number in bounds.
abbrev pub magnitude : ℕ → String → Option ℕ
magnitude bound s =
    if not (is_empty s) && all_chars is_digit s && ltb (value s) bound then some (value s) else none

abbrev pub negate : ℕ → ℤ
negate n = if n == 0 then pos 0 else negsuc (n - 1)

abbrev pub signed : Bool → String → String → Option ℤ
signed minus s digits =
    if minus
    then and_then (magnitude (2 ^ 63 + 1) digits) (λ n. some (negate n))
    else and_then (magnitude (2 ^ 63) s) (λ n. some (pos n))

abbrev pub parse_i64 : String → Option ℤ
parse_i64 String.[] = none
parse_i64 (String.◌∷◌ c s) =
    signed (is_dash (code c)) (if code c == b'+' then s else String.◌∷◌ c s) s

-- `format!("{ts}")`; 19 digits are enough for 64 bits.
abbrev pub show_i64 : ℤ → String
show_i64 (pos n) = decimal 20 n
show_i64 (negsuc n) = "-" ⊕ decimal 20 (suc n)

module _ ⦃h : Hex⦄ where
  open h use {encode, from_hex, single}

  -- `SavedDeployment::read`. Parts behind the second one are not looked at.
  unfoldable pub read : String → Option SavedDeployment
  unfolding taken left all_chars value_from
  read dir_name = and_then (parse_i64 (first_part dir_name)) λ ts_int.
      and_then (if single ts_int then some ts_int else none) λ timestamp.
        and_then (behind_dash dir_name) λ rest.
          and_then (from_hex (first_part rest))
            λ hash. some (record { timestamp = whole timestamp; hash = hash })

  -- `SavedDeployment::dir_name`: `timestamp` gives the whole seconds.
  unfoldable pub dir_name : SavedDeployment → String
  unfolding decimal
  dir_name saved = show_i64 saved.timestamp.seconds ⊕ "-" ⊕ encode saved.hash

-- `ToString for Target`
abbrev pub to_string : Target → String
to_string wasm = "wasm"
to_string onnx = "onnx"

-- `str::ends_with`
unfoldable pub ends_with : String → String → Bool
ends_with String.[] t = str_eq "" t
ends_with (String.◌∷◌ c s) t = let rest = ends_with s t in str_eq (String.◌∷◌ c s) t || rest

-- `Target::extension_matches`: a name that is no text is a panic.
unfoldable pub extension_matches : Target → Option String → Outcome String Bool
unfolding ends_with
extension_matches target filename =
    expect filename >>= λ name. ok (ends_with name (to_string target))
