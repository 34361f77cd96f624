-- ===== src/Monitor/Parse/Printed.antt =====
-- The items of a line of `radeontop` as they are printed, and what they mean in
-- src/monitor/linux/parse.rs.
use Prim.Native.String.{String}
use laqista.Base.{ℕ, ◌<◌, ◌≤◌, ◌^◌, ◌≡◌, Bool, true, false, ◌||◌, ◌==◌, arith}
use laqista.Chars.{◌⊕◌, count, count-⊕, is_alpha, is_empty, all_chars}
use laqista.Monitor.Data.{absent, mb, ghz, Utilization, id, percent, ResourceUtilization}
use laqista.Monitor.Parse.{is_hex_digit, hex_from}
use laqista.Monitor.Parse.Numerals.{Numeral, IsNumeral, put_numeral, fraction_of}

pub data Amount : Type 0 where
  only : Numeral → Amount
  in_mb : Numeral → Numeral → Amount
  in_ghz : Numeral → Numeral → Amount
  hex_id : String → Amount

abbrev pub put_amount : Amount → String → String
put_amount (only x) rest = put_numeral x ("%" ⊕ rest)
put_amount (in_mb x y) rest = put_numeral x ("% " ⊕ put_numeral y ("mb" ⊕ rest))
put_amount (in_ghz x y) rest = put_numeral x ("% " ⊕ put_numeral y ("ghz" ⊕ rest))
put_amount (hex_id s) rest = s ⊕ rest

abbrev pub amount_of : Amount → Utilization
amount_of (only x) = percent (fraction_of x) absent
amount_of (in_mb x y) = percent (fraction_of x) (mb (fraction_of y))
amount_of (in_ghz x y) = percent (fraction_of x) (ghz (fraction_of y))
amount_of (hex_id s) = id (hex_from 0 s)

abbrev pub IsAmount : Amount → Type 0
IsAmount (only x) = IsNumeral x
IsAmount (in_mb x y) = IsNumeral x × IsNumeral y
IsAmount (in_ghz x y) = IsNumeral x × IsNumeral y
IsAmount (hex_id s) =
    (is_empty s ≡ false) × (all_chars is_hex_digit s ≡ true) × (hex_from 0 s < 2 ^ 64)

pub record Item : Type 0 where
  pub name : String
  pub amount : Amount

abbrev pub put_item : Item → String → String
put_item i rest = i.name ⊕ " " ⊕ put_amount i.amount rest

abbrev pub item_of : Item → ResourceUtilization
item_of i = record { name = i.name; util = amount_of i.amount }

pub record IsItem (i : Item) : Type 0 where
  pub named : is_empty i.name ≡ false
  pub letters : all_chars is_alpha i.name ≡ true
  pub amount : IsAmount i.amount

-- A character that would be read as a part of an item.
abbrev pub is_inner : ℕ → Bool
is_inner c = is_hex_digit c || c == b'.' || c == b' '

count-put_numeral : (x : Numeral) (rest : String) → count rest ≤ count (put_numeral x rest)
unfolding count
count-put_numeral x rest =
    omega (arith, count-⊕ x.before ("." ⊕ x.behind ⊕ rest), count-⊕ x.behind rest)

count-put_amount : (a : Amount) (rest : String) → count rest ≤ count (put_amount a rest)
unfolding count
count-put_amount (only x) rest = omega (arith, count-put_numeral x ("%" ⊕ rest))
count-put_amount (in_mb x y) rest = omega (
  arith,
  count-put_numeral x ("% " ⊕ put_numeral y ("mb" ⊕ rest)),
  count-put_numeral y ("mb" ⊕ rest),
)
count-put_amount (in_ghz x y) rest = omega (
  arith,
  count-put_numeral x ("% " ⊕ put_numeral y ("ghz" ⊕ rest)),
  count-put_numeral y ("ghz" ⊕ rest),
)
count-put_amount (hex_id s) rest = omega (arith, count-⊕ s rest)

pub count-put_item : (i : Item) (rest : String) → count rest < count (put_item i rest)
unfolding count
count-put_item i rest =
    omega (arith, count-⊕ i.name (" " ⊕ put_amount i.amount rest), count-put_amount i.amount rest)
