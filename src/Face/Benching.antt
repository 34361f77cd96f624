-- ===== src/Face/Benching.antt =====
-- The functions of apps/face-wasm/src/lib.rs that its benchmarks call.
use laqista.Base.{
  some, ℕ, ◌≡◌, refl, ap, ◌∙◌, String, List, length, map_err, Option, Outcome, ok, ◌>>=◌,
}
use laqista.Base.Int.{ℤ}
use laqista.Base.Text.{str_append}
use laqista.Wasm.{Bytes, Memory, contents, with_used_len}
use laqista.Wasm.Runner.{Codec, InvokeResult}
use laqista.Wasm.Exits.{setup, len, exit_finish}
use laqista.Face.Shape.{from_shape_fn-length}
use laqista.Wasm.Runner.{call, ExecState, WasmRunner}
use laqista.Wasm.Returning.{HasRoom, finish_of, call-exit_finish}
use laqista.Face.Running.{entered, called_with, call-entered, decode-called_with}
use laqista.Face.{
  channel_at, Detection, DetectionRequest, image_width, image_height, array_of, trapped,
}

module _ ⦃d : Detection⦄ (results : Codec (Option InvokeResult)) (texts : Codec String)
    (requests : Codec DetectionRequest) where
  open d use {load_from_memory, resize_to_fill, shown}

  -- `exit_finish` with a number's text.
  abbrev pub counted : Memory → Outcome String ℕ → Outcome String (ℤ × Memory)
  unfolding exit_finish
  counted memory (ok n) = ok (exit_finish results texts memory (shown n))
  counted memory _ = trapped

  -- The request in the memory.
  abbrev pub request_in : Memory → Outcome String DetectionRequest
  request_in memory =
      map_err (str_append "ERR: Failed to decode request: ")
        (requests.decode (contents memory.bytes memory.head (len memory)))

  -- How long the picture is. A request that cannot be read is a panic.
  unfoldable pub read_detection_request : Bytes → ℕ → ℕ → Outcome String (ℤ × Memory)
  unfolding contents exit_finish
  read_detection_request bytes ptr n =
      let memory = setup bytes ptr n in
      counted memory (request_in memory >>= λ request. ok (length request.image_png))

  -- How many elements the array of the picture has. A picture that cannot be read is a panic.
  unfoldable pub read_image : Bytes → ℕ → ℕ → Outcome String (ℤ × Memory)
  unfolding contents exit_finish array_of
  read_image bytes ptr n =
      let memory = setup bytes ptr n in
      counted memory (do
        request ← request_in memory
        img ← load_from_memory request.image_png
        array ← array_of (resize_to_fill img image_width image_height)
        ok (length array))

  -- What is said of a number that comes out of the request and its picture.
  counted-two :
      {I : Type 0} (memory : Memory) (o : Outcome String DetectionRequest)
      (load : DetectionRequest → Outcome String I) (array : I → Outcome String (List d.F32))
      (f : String → String) (msg : DetectionRequest) (img : I) (l : List d.F32) (n : ℕ)
      → o ≡ ok msg
      → load msg ≡ ok img
      → array img ≡ ok l
      → length l ≡ n
      → counted memory
          (map_err f o >>= λ request. load request >>= λ img. array img >>= λ l. ok (length l))
        ≡ ok (exit_finish results texts memory (shown n))
  unfolding exit_finish
  counted-two memory o load array f msg img l n read loaded made long =
      rw (read, loaded, made, long) refl

  module _ (msg : DetectionRequest) (p : ℕ) (bytes : Bytes) where
    abbrev asked : Memory
    asked = called_with (requests.encode msg) p bytes

    -- A benchmark that calls `read_image` with a picture is told that the array has 150528
    -- elements, whatever the size of the picture. Where the memory has room for the answer.
    pub read_image-counts :
        (img : d.Img) (array : List d.F32) (r : WasmRunner)
        → load_from_memory msg.image_png ≡ ok img
        → array_of (resize_to_fill img image_width image_height) ≡ ok array
        → r.bytes ≡ asked.bytes
        → HasRoom results texts asked r
            (length (texts.encode (shown 150528)))
            (length (results.encode (some (finish_of results texts asked (shown 150528)))))
        → (call results texts
            (λ r. entered (read_image r.bytes p (length (requests.encode msg))) r)
            r).0
          ≡ ok (ExecState.finished (shown 150528))
    unfolding read_image array_of exit_finish contents with_used_len
    read_image-counts img array r loaded made there room =
        let resized = resize_to_fill img image_width image_height in
        let counts =
          counted-two asked _ (λ (x : DetectionRequest). load_from_memory x.image_png)
            (λ i. array_of (resize_to_fill i image_width image_height))
            (str_append "ERR: Failed to decode request: ") msg img array 150528
            (decode-called_with requests msg p bytes) loaded made
            (from_shape_fn-length (channel_at resized) array made) in
        ap (λ t. t.0)
          (call-entered results texts (λ b. read_image b p (length (requests.encode msg))) _ r
            (ap (λ b. read_image b p (length (requests.encode msg))) there ∙ counts))
        ∙ call-exit_finish results texts asked (shown 150528) r room
