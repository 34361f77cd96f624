-- ===== src/Monitor/Parse/Items.antt =====
-- What the parsers of src/monitor/linux/parse.rs make of one item of a line, such as `gpu 5.00%`,
-- `vram 19.57% 400.73mb` or `bus 02`.
use Prim.Native.String.{String}
use laqista.Base.{
  inl, inr, ◌^◌, ◌≡◌, refl, ◌∙◌, true, ltb, [], ◌∷◌, none, ok, err, arith, Bool-cases, lt→ltb,
}
use laqista.Chars.{
  ◌⊕◌, is_digit, is_alpha, is_empty, taken, left, strip_prefix, value, all_chars, stops,
}
use laqista.Monitor.Nom.{Nom, MetricsParseError, nom}
use laqista.Monitor.Data.{Fraction, AbsoluteUtilization, absent, mb, ghz, id, percent}
use laqista.Monitor.Parse.{
  is_hex_digit, hex_from, hex, fraction, in_unit, absolute_utilization, absolute_utilization_none,
  utilization_percent, utilization_id, utilization, resource_utilzation,
}
use laqista.Monitor.Parse.Printed.{
  Amount, only, in_mb, in_ghz, hex_id, put_amount, amount_of, IsAmount, Item, IsItem, put_item,
  item_of, is_inner,
}
use laqista.Monitor.Parse.Numerals.{
  Numeral, IsNumeral, put_numeral, fraction_of, tag-append, one_or_more-append,
  fraction-put_numeral,
}

stops_digit : (s : String) → stops is_inner s ≡ true → stops is_digit s ≡ true
stops_digit String.[] h = refl
stops_digit (String.◌∷◌ c s) h = ground arith

stops_hex : (s : String) → stops is_inner s ≡ true → stops is_hex_digit s ≡ true
stops_hex String.[] h = refl
stops_hex (String.◌∷◌ c s) h = ground arith

no_space : (s : String) → stops is_inner s ≡ true → strip_prefix " " s ≡ none
unfolding strip_prefix
no_space String.[] h = refl
no_space (String.◌∷◌ c s) h = ground arith

-- Behind the decimal digits with which a hexadecimal number starts stands no dot.
no_dot :
    (s rest : String)
    → all_chars is_hex_digit s ≡ true
    → stops is_inner rest ≡ true
    → strip_prefix "." (left is_digit (s ⊕ rest)) ≡ none
unfolding strip_prefix left all_chars
no_dot String.[] String.[] h k = refl
no_dot String.[] (String.◌∷◌ c rest) h k = ground arith
no_dot (String.◌∷◌ c s) rest h k = ground (arith, no_dot s rest)

module _ ⦃n : Nom⦄ where
  open n use {
    Kind, tag, alpha1, alpha_kind, take_while1, while_kind, alt, text_u64, digit_kind, tag_kind,
    tag-eq, alpha1-eq, take_while1-eq, text_u64-eq, alt-first, alt-next, alt-last,
  }

  tag-none : (t s : String) → strip_prefix t s ≡ none → tag t s ≡ err (nom s tag_kind)
  tag-none t s h = rw (tag-eq t s) (rw h refl)

  hex-append :
      (s rest : String)
      → IsAmount (hex_id s)
      → stops is_hex_digit rest ≡ true
      → hex (s ⊕ rest) ≡ ok (rest, hex_from 0 s)
  unfolding hex
  hex-append s rest (e, h, fits) k = rw (take_while1-eq is_hex_digit (s ⊕ rest)) (
      rw (one_or_more-append while_kind is_hex_digit s rest e h k)
        (rw (lt→ltb (hex_from 0 s) (2 ^ 64) fits) refl))

  -- A hexadecimal number is no percentage.
  hex-no_percent :
      (s rest : String)
      → all_chars is_hex_digit s ≡ true
      → stops is_inner rest ≡ true
      → (e : MetricsParseError Kind) × (utilization_percent (s ⊕ rest) ≡ err e)
  unfolding utilization_percent fraction
  hex-no_percent s rest h k = elim (Bool-cases (is_empty (taken is_digit (s ⊕ rest)))) [
    | inl e ↦ (nom (s ⊕ rest) digit_kind, rw (text_u64-eq (s ⊕ rest)) (rw e refl))
    | inr e ↦ elim (Bool-cases (ltb (value (taken is_digit (s ⊕ rest))) (2 ^ 64))) [
      | inl fits ↦ (
        nom (left is_digit (s ⊕ rest)) tag_kind,
        rw (text_u64-eq (s ⊕ rest)) (
            rw e (rw fits (rw (tag-none "." (left is_digit (s ⊕ rest)) (no_dot s rest h k)) refl))),
      )
      | inr over ↦ (nom (s ⊕ rest) digit_kind, rw (text_u64-eq (s ⊕ rest)) (rw e (rw over refl)))
    ]
  ]

  in_unit-append :
      (unit : String) (absolute : Fraction → AbsoluteUtilization) (y : Numeral) (rest : String)
      → IsNumeral y
      → stops is_digit (unit ⊕ rest) ≡ true
      → in_unit unit absolute (" " ⊕ put_numeral y (unit ⊕ rest))
        ≡ ok (rest, absolute (fraction_of y))
  unfolding in_unit
  in_unit-append unit absolute y rest h s =
      rw (tag-append " " (put_numeral y (unit ⊕ rest)))
        (rw (fraction-put_numeral y (unit ⊕ rest) h s) (rw (tag-append unit rest) refl))

  in_unit-none :
      (unit : String) (absolute : Fraction → AbsoluteUtilization) (rest : String)
      → strip_prefix " " rest ≡ none
      → in_unit unit absolute rest ≡ err (nom rest tag_kind)
  unfolding in_unit
  in_unit-none unit absolute rest h = rw (tag-none " " rest h) refl

  in_unit-other :
      (unit : String) (absolute : Fraction → AbsoluteUtilization) (y : Numeral) (rest : String)
      → IsNumeral y
      → stops is_digit rest ≡ true
      → strip_prefix unit rest ≡ none
      → in_unit unit absolute (" " ⊕ put_numeral y rest) ≡ err (nom rest tag_kind)
  unfolding in_unit
  in_unit-other unit absolute y rest h s other =
      rw (tag-append " " (put_numeral y rest))
        (rw (fraction-put_numeral y rest h s) (rw (tag-none unit rest other) refl))

  absolute-absent :
      (rest : String) → stops is_inner rest ≡ true → absolute_utilization rest ≡ ok (rest, absent)
  unfolding absolute_utilization
  absolute-absent rest h =
      alt-next (in_unit "mb" mb) (in_unit "ghz" ghz) (absolute_utilization_none ∷ []) rest
        (in_unit-none "mb" mb rest (no_space rest h))
      ∙ alt-next (in_unit "ghz" ghz) absolute_utilization_none [] rest
          (in_unit-none "ghz" ghz rest (no_space rest h))
      ∙ alt-last absolute_utilization_none rest

  absolute-mb :
      (y : Numeral) (rest : String)
      → IsNumeral y
      → absolute_utilization (" " ⊕ put_numeral y ("mb" ⊕ rest)) ≡ ok (rest, mb (fraction_of y))
  unfolding absolute_utilization
  absolute-mb y rest h =
      alt-first (in_unit "mb" mb) (in_unit "ghz" ghz ∷ absolute_utilization_none ∷ []) _
        (in_unit-append "mb" mb y rest h refl)

  not_mb : (rest : String) → strip_prefix "mb" ("ghz" ⊕ rest) ≡ none
  unfolding strip_prefix
  not_mb rest = refl

  absolute-ghz :
      (y : Numeral) (rest : String)
      → IsNumeral y
      → absolute_utilization (" " ⊕ put_numeral y ("ghz" ⊕ rest)) ≡ ok (rest, ghz (fraction_of y))
  unfolding absolute_utilization
  absolute-ghz y rest h =
      alt-next (in_unit "mb" mb) (in_unit "ghz" ghz) (absolute_utilization_none ∷ []) _
        (in_unit-other "mb" mb y ("ghz" ⊕ rest) h refl (not_mb rest))
      ∙ alt-first (in_unit "ghz" ghz) (absolute_utilization_none ∷ []) _
          (in_unit-append "ghz" ghz y rest h refl)

  percent-append :
      (x : Numeral) (after rest : String) (absolute : AbsoluteUtilization)
      → IsNumeral x
      → absolute_utilization after ≡ ok (rest, absolute)
      → utilization (put_numeral x ("%" ⊕ after)) ≡ ok (rest, percent (fraction_of x) absolute)
  unfolding utilization utilization_percent
  percent-append x after rest absolute h e =
      alt-first utilization_percent (utilization_id ∷ []) _
        (rw (fraction-put_numeral x ("%" ⊕ after) h refl) (rw (tag-append "%" after) (rw e refl)))

  id-append :
      (t rest : String)
      → IsAmount (hex_id t)
      → stops is_inner rest ≡ true
      → utilization (t ⊕ rest) ≡ ok (rest, id (hex_from 0 t))
  unfolding utilization utilization_id
  id-append t rest (e, h, fits) s =
      let (x, no_percent) = hex-no_percent t rest h s in
      alt-next utilization_percent utilization_id [] (t ⊕ rest) no_percent
      ∙ alt-last utilization_id (t ⊕ rest)
      ∙ rw (hex-append t rest (e, h, fits) (stops_hex rest s)) refl

  utilization-put_amount :
      (a : Amount) (rest : String)
      → IsAmount a
      → stops is_inner rest ≡ true
      → utilization (put_amount a rest) ≡ ok (rest, amount_of a)
  utilization-put_amount (only x) rest h s =
      percent-append x rest rest absent h (absolute-absent rest s)
  utilization-put_amount (in_mb x y) rest (h, k) s =
      percent-append x _ rest (mb (fraction_of y)) h (absolute-mb y rest k)
  utilization-put_amount (in_ghz x y) rest (h, k) s =
      percent-append x _ rest (ghz (fraction_of y)) h (absolute-ghz y rest k)
  utilization-put_amount (hex_id t) rest h s = id-append t rest h s

  -- A name of letters, a space and an amount are read as they are printed, whatever follows, as
  -- long as it does not go on with a character of an amount.
  pub resource_utilzation-put_item :
      (i : Item) (rest : String)
      → IsItem i
      → stops is_inner rest ≡ true
      → resource_utilzation (put_item i rest) ≡ ok (rest, item_of i)
  unfolding resource_utilzation
  resource_utilzation-put_item i rest h s = rw (alpha1-eq (put_item i rest)) (
      rw
        (one_or_more-append alpha_kind is_alpha i.name (" " ⊕ put_amount i.amount rest) h.named
          h.letters refl)
        (rw (tag-append " " (put_amount i.amount rest))
          (rw (utilization-put_amount i.amount rest h.amount s) refl)))
