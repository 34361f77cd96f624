-- ===== src/Examples/Exchanges.antt =====
-- A request to the face detector that is answered. The picture has one colour, so its values are
-- known without a run over its pixels.
use laqista.Base.Word.{Byte, as_u8}
use laqista.Base.{
  ℕ, zero, suc, ◌+◌, ◌≡◌, refl, ap, String, str_eq, if◌then◌else◌, List, [], ◌∷◌, map, length,
  Outcome, ok, collect, ◌>>=◌, arith,
}
use laqista.Base.Int.{pos_part}
use laqista.Base.{◌<◌, map_ok}
use laqista.Face.Opening.{Pictures, open_image, open_image-run}
use laqista.Face.Running.{called_with}
use laqista.Face.{
  run, get_elem?, DetectionRequest, InferRequest, image_width, image_height, below, below_from,
  concat, channel_at, array_of, input_of, reply_of, main, get_probability,
}
use laqista.Face.Shape.{from_shape_fn-length}
use laqista.Wasm.Runner.{memory_size}
use laqista.Face.Server.{Host, serve_infer, infer, detect}
use laqista.Face.Calls.{input_of-array}
use laqista.Face.Answering.{Exchange, IsAnswered, Fits, total, run_detection-answers}
use laqista.Face.Detecting.{run_detection}
use laqista.Face.Tensor.{try_from, remove, as_inputs, OutputTensor, squeezenet_output}
use laqista.Face.Running.{entered}
use laqista.Examples.Faces.{counting}
use laqista.Examples.Wire.{wire}
use laqista.Examples.Detections.{requests, inputs, outputs, nothing, replies, detector}

module _ {E A B : Type 0} (f : A → Outcome E B) (v : B) (same : (x : A) → f x ≡ ok v) where
  collect-same : (l : List A) → collect f l ≡ ok (map (λ x. v) l)
  collect-same [] = refl
  collect-same (x ∷ l) = rw (same x) (rw (collect-same l) refl)

module _ (r g b j i : ℕ) where
  first_channel : channel_at (r ∷ g ∷ b ∷ []) 0 j i ≡ ok (as_u8 r)
  unfolding channel_at
  first_channel = refl

  second_channel : channel_at (r ∷ g ∷ b ∷ []) 1 j i ≡ ok (as_u8 g)
  unfolding channel_at
  second_channel = refl

  third_channel : channel_at (r ∷ g ∷ b ∷ []) 2 j i ≡ ok (as_u8 b)
  unfolding channel_at
  third_channel = refl

-- A channel of one value.
abbrev channel : ℕ → List (List Byte)
channel v = map (λ j. map (λ i. as_u8 v) (below image_height)) (below image_width)

channel-values :
    (img : List ℕ) (c v : ℕ)
    → ((j i : ℕ) → channel_at img c j i ≡ ok (as_u8 v))
    → collect (λ j. collect (channel_at img c j) (below image_height)) (below image_width)
      ≡ ok (channel v)
channel-values img c v same =
    collect-same _ (map (λ i. as_u8 v) (below image_height))
      (λ j. collect-same (channel_at img c j) (as_u8 v) (same j) (below image_height))
      (below image_width)

-- The values of a picture of one colour.
abbrev pub coloured : ℕ → ℕ → ℕ → List Byte
coloured r g b = concat (map concat (channel r ∷ channel g ∷ channel b ∷ []))

collect-three :
    {B : Type 0} (f : ℕ → Outcome String B) (x y z : B)
    → f 0 ≡ ok x
    → f 1 ≡ ok y
    → f 2 ≡ ok z
    → collect f (below 3) ≡ ok (x ∷ y ∷ z ∷ [])
unfolding below_from
collect-three f x y z hx hy hz = rw (hx, hy, hz) refl

array_of-coloured : (r g b : ℕ) → array_of (r ∷ g ∷ b ∷ []) ≡ ok (coloured r g b)
unfolding array_of
array_of-coloured r g b =
    let img = r ∷ g ∷ b ∷ [] in
    ap
      (λ (o : Outcome String (List (List (List Byte)))).
        o >>= λ channels. ok (concat (map concat channels)))
      (collect-three
        (λ c. collect (λ j. collect (channel_at img c j) (below image_height)) (below image_width))
        (channel r) (channel g) (channel b)
        (channel-values img 0 r (λ j i. first_channel r g b j i))
        (channel-values img 1 g (λ j i. second_channel r g b j i))
        (channel-values img 2 b (λ j i. third_channel r g b j i)))

length-coloured : (r g b : ℕ) → length (coloured r g b) ≡ 150528
unfolding array_of
length-coloured r g b =
    from_shape_fn-length (channel_at (r ∷ g ∷ b ∷ [])) (coloured r g b) (array_of-coloured r g b)

-- A module with the two functions of the application, and a model that always infers the same.
abbrev host : Host Byte
host = record {
  GpuSession = Unit {0};
  gpu_session = λ onnx. ok tt;
  gpu_run =
      λ session tensors. ok ((squeezenet_output, OutputTensor.f32 (as_u8 10 ∷ as_u8 90 ∷ [])) ∷ []);
  instantiate = λ wasm. ok (λ k. as_u8 0);
  function = λ wasm name p r.
      entered
        (if str_eq name "main"
          then main wire nothing requests inputs r.bytes (pos_part p.start) (pos_part p.len)
          else get_probability wire nothing outputs replies r.bytes (pos_part p.start)
              (pos_part p.len))
        r;
}

abbrev exchange : Exchange
exchange = record {
  msg = record { image_png = as_u8 1 ∷ as_u8 2 ∷ as_u8 3 ∷ [] };
  img = 1 ∷ 2 ∷ 3 ∷ [];
  req = record { values = coloured 1 2 3 };
  resp = record { squeezenet0_flatten0_reshape0 = as_u8 10 ∷ as_u8 90 ∷ [] };
  reply = record { label = "face"; probability = as_u8 90 };
}

input_of-coloured :
    (r g b : ℕ) → input_of (r ∷ g ∷ b ∷ []) ≡ ok (record { values = coloured r g b })
input_of-coloured r g b = input_of-array (r ∷ g ∷ b ∷ []) (coloured r g b) (array_of-coloured r g b)

served : (req : InferRequest Byte) → serve_infer Byte ⦃h = host⦄ detector req ≡ ok exchange.resp
unfolding serve_infer infer detect try_from remove as_inputs
served req = refl

exchange-IsAnswered :
    IsAnswered ⦃h = host⦄ wire nothing requests inputs outputs replies detector exchange
unfolding reply_of
exchange-IsAnswered = (refl, input_of-coloured 1 2 3, served exchange.req, refl)

total-exchange : total wire requests inputs outputs replies exchange (λ k. as_u8 0) 0 18 ≡ 150672
total-exchange = ap (λ n. 3 + n + 1 + 101 + 2 + 18 + 1 + 18) (length-coloured 1 2 3)

exchange-Fits : Fits wire requests inputs outputs replies exchange (λ k. as_u8 0) memory_size 0 18
exchange-Fits = record {
  request = omega arith;
  result = omega arith;
  finish = λ p. omega arith;
  small = omega (arith, total-exchange);
  enough = omega (arith, total-exchange);
}

run_detection-answers_example :
    run_detection Byte ⦃h = host⦄ wire requests inputs outputs replies nothing detector exchange.msg
    ≡ ok exchange.reply
run_detection-answers_example =
    run_detection-answers ⦃h = host⦄ wire nothing requests inputs outputs replies detector exchange
      (λ k. as_u8 0) 18 refl (λ p n. refl) (λ p n. refl) exchange-IsAnswered exchange-Fits

-- The channels of a pixel without its alpha.
abbrev first_values : ℕ → List ℕ → List ℕ
first_values n [] = []
first_values zero (v ∷ rest) = []
first_values (suc n) (v ∷ rest) = v ∷ first_values n rest

get_elem?-first_values :
    (n : ℕ) (l : List ℕ) (c : ℕ) → c < n → get_elem? (first_values n l) c ≡ get_elem? l c
get_elem?-first_values n [] c small = refl
get_elem?-first_values zero (v ∷ rest) c small = absurd (omega arith)
get_elem?-first_values (suc n) (v ∷ rest) zero small = refl
get_elem?-first_values (suc n) (v ∷ rest) (suc c) small =
    get_elem?-first_values n rest c (omega arith)

instance abbrev pictures : Pictures counting
pictures = record {
  open_path = λ path. ok (1 ∷ 2 ∷ 3 ∷ 255 ∷ []);
  Rgb = List ℕ;
  to_rgb8 = first_values 3;
  rgb_pixel = λ img i j. img;
  rgb_pixel-to_rgb8 = λ img i j c small. get_elem?-first_values 3 img c small;
}

abbrev see_through : DetectionRequest
see_through = record { image_png = as_u8 1 ∷ as_u8 2 ∷ as_u8 3 ∷ as_u8 255 ∷ [] }

open_image-run_example :
    run requests (called_with (as_u8 1 ∷ as_u8 2 ∷ as_u8 3 ∷ as_u8 255 ∷ []) 1 (λ k. as_u8 0))
    ≡ map_ok (λ l. record { values = l }) (open_image "pelican.jpeg")
open_image-run_example =
    open_image-run requests "pelican.jpeg" see_through 1 (λ k. as_u8 0) (1 ∷ 2 ∷ 3 ∷ 255 ∷ []) refl
      refl
