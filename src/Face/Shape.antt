-- ===== src/Face/Shape.antt =====
-- How many elements an array of a picture has (apps/face-wasm/src/lib.rs and apps/face/src/lib.rs).
use laqista.Base.{
  subst, ℕ, zero, suc, ◌*◌, ◌≡◌, refl, ap, ◌∙◌, sym, String, List, [], ◌∷◌, map, length,
  length-append, length-map, All, Outcome, ok, >>=-ok, ok_inj, arith,
}
use laqista.Base.{collect}
use laqista.Face.{
  Detection, InferRequest, image_width, image_height, below, below_from, concat, channel_at,
  from_shape_fn, array_of, input_of,
}

length-below_from : (i n : ℕ) → length (below_from i n) ≡ n
unfolding below_from
length-below_from i zero = refl
length-below_from i (suc n) = ap suc (length-below_from (suc i) n)

-- What `collect` gives has a value for each element, each of them a result of the function.
module _ {E A B : Type 0} (f : A → Outcome E B) where
  length-collect : (xs : List A) (ys : List B) → collect f xs ≡ ok ys → length ys ≡ length xs
  length-collect [] ys h = ap length (sym (ok_inj h))
  length-collect (x ∷ xs) ys h =
      let (y, _, rest) = >>=-ok (f x) _ h in
      let (ys', all, made) = >>=-ok (collect f xs) _ rest in
      ap length (sym (ok_inj made)) ∙ ap suc (length-collect xs ys' all)

  collect-All :
      (Q : B → Type 0) (xs : List A) (ys : List B)
      → ((x : A) (y : B) → f x ≡ ok y → Q y)
      → collect f xs ≡ ok ys
      → All Q ys
  collect-All Q [] ys each h = subst (All Q) (ok_inj h) tt
  collect-All Q (x ∷ xs) ys each h =
      let (y, first, rest) = >>=-ok (f x) _ h in
      let (ys', all, made) = >>=-ok (collect f xs) _ rest in
      subst (All Q) (ok_inj made) (each x y first, collect-All Q xs ys' each all)

abbrev HasLength : {A : Type 0} → ℕ → List A → Type 0
HasLength n l = length l ≡ n

length-concat :
    {A : Type 0} (n : ℕ) (ls : List (List A))
    → All (HasLength n) ls
    → length (concat ls) ≡ length ls * n
length-concat n [] each = omega arith
length-concat n (l ∷ ls) (here, later) =
    omega (arith, length-append l (concat ls), length-concat n ls later, here)

module _ {E A B : Type 0} (f : A → Outcome E (List B)) where
  -- The elements of rows of one length.
  length-concat-collect :
      (n : ℕ) (xs : List A) (rows : List (List B))
      → ((x : A) (row : List B) → f x ≡ ok row → length row ≡ n)
      → collect f xs ≡ ok rows
      → length (concat rows) ≡ length xs * n
  length-concat-collect n xs rows each h =
      length-concat n rows (collect-All f (HasLength n) xs rows each h)
      ∙ ap (λ k. k * n) (length-collect f xs rows h)

All-map :
    {A B : Type 0} (Q : B → Type 0) (f : A → B) (xs : List A)
    → All (λ x. Q (f x)) xs
    → All Q (map f xs)
All-map Q f [] each = tt
All-map Q f (x ∷ xs) (here, later) = (here, All-map Q f xs later)

module _ ⦃d : Detection⦄ where
  -- A tensor has 3 channels of 224 columns of 224 elements.
  pub from_shape_fn-length :
      (f : ℕ → ℕ → ℕ → Outcome String d.F32) (l : List d.F32)
      → from_shape_fn f ≡ ok l
      → length l ≡ 150528
  unfolding below_from
  from_shape_fn-length f l h =
      let column = λ (c j : ℕ). collect (f c j) (below image_height) in
      let channel = λ (c : ℕ). collect (column c) (below image_width) in
      let (channels, collected, made) = >>=-ok (collect channel (below 3)) _ h in
      ap length (sym (ok_inj made))
      ∙ length-concat (224 * 224) (map concat channels) (
          All-map (HasLength (224 * 224)) concat channels (
            collect-All channel (λ rows. length (concat rows) ≡ 224 * 224) (below 3) channels
              (λ c rows e.
                length-concat-collect (column c) 224 (below image_width) rows
                  (λ j row e'.
                    length-collect (f c j) (below image_height) row e' ∙ length-below_from 0 224)
                  e
                ∙ ap (λ k. k * 224) (length-below_from 0 224))
              collected))
      ∙ ap (λ k. k * (224 * 224))
          (length-map concat channels ∙ length-collect channel (below 3) channels collected)

  -- The application sends 150528 numbers to the inference, whatever the size of the picture.
  pub input_of-length :
      (img : d.Img) (req : InferRequest d.F32) → input_of img ≡ ok req → length req.values ≡ 150528
  unfolding input_of array_of
  input_of-length img req h =
      let (l, e, made) = >>=-ok (array_of (d.resize_to_fill img image_width image_height)) _ h in
      ap (λ (r : InferRequest d.F32). length r.values) (sym (ok_inj made))
      ∙ from_shape_fn-length (channel_at (d.resize_to_fill img image_width image_height)) l e
