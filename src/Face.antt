-- ===== src/Face.antt =====
-- apps/face-wasm/src/lib.rs: the functions that the face detector exports to the daemon. What the
-- crates image and ndarray do with a picture, and floating point numbers of 32 bits, are
-- parameters.
pub mod Probability
pub mod Tensor
pub mod Server
pub mod Detecting
pub mod Running
pub mod Failing
pub mod Parameters
pub mod Calls
pub mod Answering
pub mod Shape
pub mod Benching
pub mod Opening
use Prim.Native.Nat.{Ordering}
use laqista.Base.Word.{Byte}
use laqista.Base.{
  ℕ, zero, suc, ◌+◌, ◌-◌, ◌≡◌, ◌≢◌, if◌then◌else◌, String, List, [], ◌∷◌, ◌++◌, map, length, Option,
  none, some, Outcome, ok, err, panic, ◌>>=◌, map_err, ok_or, collect,
}
use laqista.Base.Text.{str_append}
use laqista.Wasm.{Bytes, Memory, contents}
use laqista.Wasm.Runner.{Codec, InvokeResult}
use laqista.Wasm.Exits.{setup, len, exit_finish, exit_hostcall, exit_error}
use laqista.Base.Int.{ℤ}
use mathlib.Core.List.{Perm, Mem}

pub record DetectionRequest : Type 0 where
  pub image_png : List Byte

pub record DetectionReply (F : Type 0) : Type 0 where
  pub label : String
  pub probability : F

pub record InferRequest (F : Type 0) : Type 0 where
  pub values : List F

pub record InferReply (F : Type 0) : Type 0 where
  pub squeezenet0_flatten0_reshape0 : List F

-- An order on the elements of a list, as `sort_unstable_by` wants it.
pub record IsOrder {A : Type 0} (cmp : A → A → Ordering) (l : List A) : Type 0 where
  pub flip : (a b : A) → Mem a l → Mem b l → cmp a b ≡ Ordering.gt → cmp b a ≡ Ordering.lt
  pub trans :
      (a b c : A)
      → Mem a l
      → Mem b l
      → Mem c l
      → cmp a b ≢ Ordering.gt
      → cmp b c ≢ Ordering.gt
      → cmp a c ≢ Ordering.gt

-- The numbers, the picture, the labels of the file data/models/resnet-labels.txt, and the printing
-- of a number. `sort_unstable_by` reorders the list; under an order the first element is a least
-- one.
pub record Detection : Type 1 where
  pub F32 : Type 0
  pub partial_cmp : F32 → F32 → Option Ordering
  pub scaled : ℕ → F32
  pub Img : Type 0
  pub load_from_memory : List Byte → Outcome String Img
  pub resize_to_fill : Img → ℕ → ℕ → Img
  pub get_pixel : Img → ℕ → ℕ → List ℕ
  pub labels : List String
  pub shown : ℕ → String
  pub sort_by : {A : Type 0} → (A → A → Ordering) → List A → List A
  pub sort_by-Perm : {A : Type 0} (cmp : A → A → Ordering) (l : List A) → Perm (sort_by cmp l) l
  pub sort_by-first :
      {A : Type 0} (cmp : A → A → Ordering) (l : List A) (x : A) (rest : List A)
      → IsOrder cmp l
      → sort_by cmp l ≡ x ∷ rest
      → (y : A) → Mem y l
      → cmp x y ≢ Ordering.gt

abbrev pub image_width : ℕ
image_width = 224

abbrev pub image_height : ℕ
image_height = 224

-- `Vec::get`
abbrev pub get_elem? {ℓ} : {A : Type ℓ} → List A → ℕ → Option A
get_elem? [] i = none
get_elem? (x ∷ xs) zero = some x
get_elem? (x ∷ xs) (suc i) = get_elem? xs i

-- `iter().enumerate()`, from an index on.
abbrev pub enumerate_from {ℓ} : {A : Type ℓ} → ℕ → List A → List (ℕ × A)
enumerate_from i [] = []
enumerate_from i (x ∷ xs) = (i, x) ∷ enumerate_from (suc i) xs

-- The numbers below a bound.
unfoldable pub below_from : ℕ → ℕ → List ℕ
below_from i zero = []
below_from i (suc n) = i ∷ below_from (suc i) n

abbrev pub below : ℕ → List ℕ
below = below_from 0

abbrev pub concat {ℓ} : {A : Type ℓ} → List (List A) → List A
concat [] = []
concat (l ∷ ls) = l ++ concat ls

-- How a function returns: a panic of the application is a trap of the engine.
abbrev pub trapped : Outcome String (ℤ × Memory)
trapped = err "unreachable"

module _ ⦃d : Detection⦄ where
  open d use {
    F32, partial_cmp, scaled, Img, load_from_memory, resize_to_fill, get_pixel, labels, shown,
    sort_by,
  }

  -- The closure of `from_shape_fn`: a pixel has a value for each channel, or the index is a panic.
  unfoldable pub channel_at : Img → ℕ → ℕ → ℕ → Outcome String F32
  channel_at img c j i = elim (get_elem? (get_pixel img i j) c) [
    | none ↦ panic
    | some v ↦ ok (scaled v)
  ]

  -- `from_shape_fn` with the shape (1, 3, width, height): the elements, the last index first.
  abbrev pub from_shape_fn : (ℕ → ℕ → ℕ → Outcome String F32) → Outcome String (List F32)
  from_shape_fn f =
      collect (λ c. collect (λ j. collect (f c j) (below image_height)) (below image_width))
        (below 3)
      >>= λ channels. ok (concat (map concat channels))

  unfoldable pub array_of : Img → Outcome String (List F32)
  unfolding channel_at below_from
  array_of img = from_shape_fn (channel_at img)

  -- The order of the sort: the higher probability first, and alike what cannot be compared.
  abbrev pub by_probability : ℕ × F32 → ℕ × F32 → Ordering
  by_probability (i, p) (j, q) = elim (partial_cmp q p) [ none ↦ Ordering.eq | some o ↦ o ]

  -- `probabilities[0]` of an empty list is a panic.
  abbrev pub first_ranked : List (ℕ × F32) → Outcome String (ℕ × F32)
  first_ranked [] = panic
  first_ranked (x ∷ xs) = ok x

  -- The label and the probability of an index.
  unfoldable pub reply_of : ℕ × F32 → Outcome String (DetectionReply F32)
  reply_of (i, prob) = do
    label ←
        ok_or
          (str_append "Insufficient length: want "
            (str_append (shown i) (str_append ", got " (shown (length labels)))))
          (get_elem? labels i)
    ok (record { label = label; probability = prob })

  -- The tensor of a picture of any size.
  unfoldable pub input_of : Img → Outcome String (InferRequest F32)
  unfolding array_of
  input_of img = do
    input ← array_of (resize_to_fill img image_width image_height)
    ok (record { values = input })

  unfoldable pub run : Codec DetectionRequest → Memory → Outcome String (InferRequest F32)
  unfolding contents input_of
  run requests memory = do
    request ←
        map_err (str_append "ERR: Failed to decode request: ")
          (requests.decode (contents memory.bytes memory.head (len memory)))
    img ← map_err (str_append "ERR: Failed to load image: ") (load_from_memory request.image_png)
    input_of img

  unfoldable pub get_prob_run :
      Codec (InferReply F32) → Memory → Outcome String (DetectionReply F32)
  unfolding contents reply_of
  get_prob_run outputs memory = do
    resp ←
        map_err (str_append "Failed to parse InferReply: ")
          (outputs.decode (contents memory.bytes memory.head (len memory)))
    best ←
        first_ranked (sort_by by_probability (enumerate_from 0 resp.squeezenet0_flatten0_reshape0))
    reply_of best

  -- What the two functions decode and encode: messages of prost.
  module _ (results : Codec (Option InvokeResult)) (nothing : Codec (Unit {0})) where
    -- `main`
    unfoldable pub main :
        Codec DetectionRequest
        → Codec (InferRequest F32)
        → Bytes
        → ℕ
        → ℕ
        → Outcome String (ℤ × Memory)
    unfolding run exit_hostcall exit_error
    main requests inputs bytes ptr n =
        let memory = setup bytes ptr n in
        elim (run requests memory) [
          | ok req ↦ ok (exit_hostcall results inputs memory "infer" "get_probability" req)
          | err e ↦ ok (exit_error results nothing memory e tt)
          | panic ↦ trapped
          | Outcome.blocked ↦ trapped
        ]

    -- `get_probability`
    unfoldable pub get_probability :
        Codec (InferReply F32)
        → Codec (DetectionReply F32)
        → Bytes
        → ℕ
        → ℕ
        → Outcome String (ℤ × Memory)
    unfolding get_prob_run exit_finish exit_error
    get_probability outputs replies bytes ptr n =
        let memory = setup bytes ptr n in
        elim (get_prob_run outputs memory) [
          | ok resp ↦ ok (exit_finish results replies memory resp)
          | err e ↦ ok (exit_error results nothing memory e tt)
          | panic ↦ trapped
          | Outcome.blocked ↦ trapped
        ]
