-- ===== src/Face/Calls.antt =====
-- The two calls of a request to the face detector, with the messages that pass through the memory.
use laqista.Base.{
  ℕ, ◌+◌, ◌^◌, ◌<◌, ◌≤◌, ◌≡◌, refl, ◌∙◌, ap, String, List, length, Option, some, Outcome, ok,
  map_err, ◌>>=◌,
}
use laqista.Base.Text.{str_append}
use laqista.Wasm.{Bytes, copy, with_used_len}
use laqista.Wasm.Messages.{at}
use laqista.Wasm.Runner.{Codec, WasmRunner, InvokeResult, ExecState, call}
use laqista.Wasm.Exits.{exit_hostcall, exit_finish}
use laqista.Wasm.Returning.{finish_of, host_call_of, after_call, call-continues, call-exit_finish}
use laqista.Face.{
  Detection, DetectionRequest, DetectionReply, InferRequest, InferReply, enumerate_from,
  by_probability, first_ranked, reply_of, image_width, image_height, array_of, input_of, run, main,
  get_prob_run, get_probability,
}
use laqista.Face.Server.{Host}
use laqista.Face.Parameters.{call_of}
use laqista.Face.Running.{entered, called_with, call-entered, decode-called_with}

-- Of calls with contexts for their errors, all come to a value.
first_succeeds :
    {E K A C : Type 0} (o : Outcome E A) (f : E → K) (a : A) (rest : A → Outcome K C) (c : C)
    → o ≡ ok a
    → rest a ≡ ok c
    → (map_err f o >>= rest) ≡ ok c
first_succeeds o f a rest c first last = rw first last

module _ ⦃d : Detection⦄ where
  open d use {F32, sort_by}

  -- What the application makes of an inference.
  abbrev pub answer_of : InferReply F32 → Outcome String (DetectionReply F32)
  answer_of resp =
      first_ranked (sort_by by_probability (enumerate_from 0 resp.squeezenet0_flatten0_reshape0))
      >>= reply_of

  -- The values of a picture are the array's elements.
  pub input_of-array :
      (img : d.Img) (l : List F32)
      → array_of (d.resize_to_fill img image_width image_height) ≡ ok l
      → input_of img ≡ ok (record { values = l })
  unfolding input_of
  input_of-array img l e = rw e refl

module _ ⦃d : Detection⦄ ⦃h : Host d.F32⦄ (results : Codec (Option InvokeResult))
    (nothing : Codec (Unit {0})) (requests : Codec DetectionRequest)
    (inputs : Codec (InferRequest d.F32)) (outputs : Codec (InferReply d.F32))
    (replies : Codec (DetectionReply d.F32)) where
  open d use {F32, Img, load_from_memory}
  open h use {GpuSession, instantiate}

  pub run-called_with :
      (msg : DetectionRequest) (p : ℕ) (bytes : Bytes) (img : Img) (req : InferRequest F32)
      → load_from_memory msg.image_png ≡ ok img
      → input_of img ≡ ok req
      → run requests (called_with (requests.encode msg) p bytes) ≡ ok req
  unfolding run
  run-called_with msg p bytes img req loaded input =
      first_succeeds _ _ msg
        (λ x.
          map_err (str_append "ERR: Failed to load image: ") (load_from_memory x.image_png)
          >>= input_of)
        req (decode-called_with requests msg p bytes)
        (first_succeeds (load_from_memory msg.image_png) (str_append "ERR: Failed to load image: ")
          img input_of req loaded input)

  get_prob_run-called_with :
      (resp : InferReply F32) (p : ℕ) (bytes : Bytes) (reply : DetectionReply F32)
      → answer_of resp ≡ ok reply
      → get_prob_run outputs (called_with (outputs.encode resp) p bytes) ≡ ok reply
  unfolding get_prob_run
  get_prob_run-called_with resp p bytes reply answered =
      first_succeeds _ _ resp answer_of reply (decode-called_with outputs resp p bytes) answered

  main-called_with :
      (msg : DetectionRequest) (p : ℕ) (bytes : Bytes) (img : Img) (req : InferRequest F32)
      → load_from_memory msg.image_png ≡ ok img
      → input_of img ≡ ok req
      → main results nothing requests inputs
          (copy (requests.encode msg) p bytes)
          p
          (length (requests.encode msg))
        ≡ ok (
            exit_hostcall results inputs
              (called_with (requests.encode msg) p bytes)
              "infer"
              "get_probability"
              req)
  unfolding main
  main-called_with msg p bytes img req loaded input =
      rw (main, run-called_with msg p bytes img req loaded input) refl

  -- The call of `main` with a message that it can use.
  pub call-main :
      (msg : DetectionRequest) (bytes : Bytes) (size s l l' : ℕ) (img : Img)
      (req : InferRequest F32)
      → load_from_memory msg.image_png ≡ ok img
      → input_of img ≡ ok req
      → let a = requests.encode msg in
        let all =
          s
          + l
          + length a
          + length (inputs.encode req)
          + 1
          + length
              (results.encode (some (call_of results requests inputs msg (s + l) bytes req))) in
        all < 2 ^ 31
        → all ≤ size
        → call results nothing
            (λ r. entered (main results nothing requests inputs r.bytes (s + l) (length a)) r)
            (at (copy a (s + l) bytes) size s l')
          ≡ (
            ok (
                ExecState.continue (
                  host_call_of results inputs
                    (called_with a (s + l) bytes)
                    "infer"
                    "get_probability"
                    req)),
            after_call results inputs
                (called_with a (s + l) bytes)
                "infer"
                "get_probability"
                req
                (at (copy a (s + l) bytes) size s l'),
          )
  unfolding with_used_len
  call-main msg bytes size s l l' img req loaded input small fits =
      call-entered results nothing
        (λ b. main results nothing requests inputs b (s + l) (length (requests.encode msg))) _
        (at (copy (requests.encode msg) (s + l) bytes) size s l')
        (main-called_with msg (s + l) bytes img req loaded input)
      ∙ call-continues results inputs nothing (called_with (requests.encode msg) (s + l) bytes)
          "infer" "get_probability" req (at (copy (requests.encode msg) (s + l) bytes) size s l')
          (small, fits)

  get_probability-called_with :
      (resp : InferReply F32) (p : ℕ) (bytes : Bytes) (reply : DetectionReply F32)
      → answer_of resp ≡ ok reply
      → get_probability results nothing outputs replies
          (copy (outputs.encode resp) p bytes)
          p
          (length (outputs.encode resp))
        ≡ ok (exit_finish results replies (called_with (outputs.encode resp) p bytes) reply)
  unfolding get_probability
  get_probability-called_with resp p bytes reply answered =
      rw (get_probability, get_prob_run-called_with resp p bytes reply answered) refl

  -- The call of `get_probability` with an inference that it can use.
  pub call-probability :
      (resp : InferReply F32) (bytes : Bytes) (size s l l' : ℕ) (reply : DetectionReply F32)
      → answer_of resp ≡ ok reply
      → let a = outputs.encode resp in
        let all =
          s
          + l
          + length a
          + length (replies.encode reply)
          + 1
          + length (
              results.encode
                (some (finish_of results replies (called_with a (s + l) bytes) reply))) in
        all < 2 ^ 31
        → all ≤ size
        → (call results replies
            (λ r.
              entered
                (get_probability results nothing outputs replies r.bytes (s + l) (length a))
                r)
            (at (copy a (s + l) bytes) size s l')).0
          ≡ ok (ExecState.finished reply)
  unfolding with_used_len
  call-probability resp bytes size s l l' reply answered small fits =
      ap (λ (p : Outcome String (ExecState (DetectionReply F32)) × WasmRunner). p.0)
        (call-entered results replies
          (λ b.
            get_probability results nothing outputs replies b (s + l)
              (length (outputs.encode resp)))
          _ (at (copy (outputs.encode resp) (s + l) bytes) size s l')
          (get_probability-called_with resp (s + l) bytes reply answered))
      ∙ call-exit_finish results replies (called_with (outputs.encode resp) (s + l) bytes) reply
          (at (copy (outputs.encode resp) (s + l) bytes) size s l') (small, fits)
