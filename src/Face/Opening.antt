-- ===== src/Face/Opening.antt =====
-- apps/face/src/lib.rs: how the benchmarks of the service read a picture, and the array that the
-- application makes of one.
use mathlib.Core.Path.{fun_ext}
use laqista.Base.{
  ℕ, ◌<◌, ◌≡◌, refl, ap, ◌∙◌, sym, String, List, [], ◌∷◌, map, map_ok, map_err, Option, none, some,
  Outcome, ok, err, panic, ◌>>=◌, arith,
}
use laqista.Base.Text.{str_append}
use laqista.Wasm.{Bytes}
use laqista.Base.{collect}
use laqista.Wasm.Runner.{Codec}
use laqista.Face.{
  Detection, DetectionRequest, image_width, image_height, get_elem?, below, below_from, concat,
  channel_at, from_shape_fn, array_of, input_of, run,
}
use laqista.Face.Running.{called_with, decode-called_with}

-- `Result::unwrap`
abbrev unwrap : {E A : Type 0} → Outcome E A → Outcome E A
unwrap (err e) = panic
unwrap o = o

-- The crate `image` for files. A pixel of `to_rgb8` has the first three channels of the picture's.
pub record Pictures (d : Detection) : Type 1 where
  pub open_path : String → Outcome String d.Img
  pub Rgb : Type 0
  pub to_rgb8 : d.Img → Rgb
  pub rgb_pixel : Rgb → ℕ → ℕ → List ℕ
  pub rgb_pixel-to_rgb8 :
      (img : d.Img) (i j c : ℕ)
      → c < 3
      → get_elem? (rgb_pixel (to_rgb8 img) i j) c ≡ get_elem? (d.get_pixel img i j) c

module _ ⦃d : Detection⦄ ⦃p : Pictures d⦄ where
  -- The closure of `from_shape_fn`.
  unfoldable pub rgb_channel_at : p.Rgb → ℕ → ℕ → ℕ → Outcome String d.F32
  rgb_channel_at image_buffer c j i = elim (get_elem? (p.rgb_pixel image_buffer i j) c) [
    | none ↦ panic
    | some v ↦ ok (d.scaled v)
  ]

  -- `open`: a file that cannot be opened is a panic.
  unfoldable pub open_image : String → Outcome String (List d.F32)
  unfolding rgb_channel_at below_from
  open_image path = do
    img ← unwrap (p.open_path path)
    from_shape_fn (rgb_channel_at (p.to_rgb8 (d.resize_to_fill img 224 224)))

  -- `open_default`, from the directory of the crate.
  unfoldable pub open_default : String → Outcome String (List d.F32)
  unfolding open_image
  open_default manifest_dir = open_image (str_append manifest_dir "/../../data/pelican.jpeg")

-- The first three values decide.
collect-three :
    {T B : Type 0} (h : T → Outcome String B) (f g : ℕ → T)
    → f 0 ≡ g 0
    → f 1 ≡ g 1
    → f 2 ≡ g 2
    → collect (λ c. h (f c)) (0 ∷ 1 ∷ 2 ∷ []) ≡ collect (λ c. h (g c)) (0 ∷ 1 ∷ 2 ∷ [])
collect-three h f g zeroth first second = rw (zeroth, first, second) refl

-- Two steps with a context for their errors, and a last one.
after_two :
    {M I R : Type 0} (o : Outcome String M) (load : M → Outcome String I)
    (next : I → Outcome String R) (f g : String → String) (m : M) (i : I)
    → o ≡ ok m
    → load m ≡ ok i
    → (map_err f o >>= λ x. map_err g (load x) >>= next) ≡ next i
after_two o load next f g m i first second = rw (first, second) refl

module _ ⦃d : Detection⦄ ⦃p : Pictures d⦄ where
  same_channel : (img : d.Img) (c : ℕ) → c < 3 → channel_at img c ≡ rgb_channel_at (p.to_rgb8 img) c
  unfolding channel_at rgb_channel_at
  same_channel img c small = fun_ext (λ j. fun_ext (λ i.
      ap (λ (o : Option ℕ). elim o [ none ↦ panic | some v ↦ ok (d.scaled v) ])
        (sym (p.rgb_pixel-to_rgb8 img i j c small))))

  -- Alpha does not matter: only the first three channels are looked at.
  same_array : (img : d.Img) → array_of img ≡ from_shape_fn (rgb_channel_at (p.to_rgb8 img))
  unfolding array_of below_from
  same_array img =
      ap
        (λ (o : Outcome String (List (List (List d.F32)))).
          o >>= λ channels. ok (concat (map concat channels)))
        (collect-three
          (λ (f : ℕ → ℕ → Outcome String d.F32).
            collect (λ j. collect (f j) (below image_height)) (below image_width))
          (channel_at img) (rgb_channel_at (p.to_rgb8 img)) (same_channel img 0 (omega arith))
          (same_channel img 1 (omega arith)) (same_channel img 2 (omega arith)))

  -- The benchmarks' `open` of a file and the application's `run` on a request with the same picture
  -- make the same tensor, also where the picture has an alpha channel; where the one panics at a
  -- pixel, the other does too.
  pub open_image-run :
      (requests : Codec DetectionRequest) (path : String) (msg : DetectionRequest) (at : ℕ)
      (bytes : Bytes) (img : d.Img)
      → p.open_path path ≡ ok img
      → d.load_from_memory msg.image_png ≡ ok img
      → run requests (called_with (requests.encode msg) at bytes)
        ≡ map_ok (λ l. record { values = l }) (open_image path)
  unfolding run input_of open_image
  open_image-run requests path msg at bytes img opened loaded =
      after_two _ (λ (x : DetectionRequest). d.load_from_memory x.image_png) input_of
        (str_append "ERR: Failed to decode request: ") (str_append "ERR: Failed to load image: ")
        msg img (decode-called_with requests msg at bytes) loaded
      ∙ ap (map_ok (λ l. record { values = l })) (
          same_array (d.resize_to_fill img 224 224)
          ∙ ap
              (λ o. unwrap o >>= λ i.
                from_shape_fn (rgb_channel_at (p.to_rgb8 (d.resize_to_fill i 224 224))))
              (sym opened))
