-- ===== src/Face/Answering.antt =====
-- A request to the face detector from the client to the reply: what passes between the service and
-- the application through their memory.
use laqista.Base.{ℕ, ◌+◌, ◌^◌, ◌<◌, ◌≤◌, ◌≡◌, refl, length, Option, some, ok, arith}
use laqista.Wasm.{Bytes, copy}
use laqista.Wasm.Messages.{at, write-at}
use laqista.Wasm.Runner.{Codec, InvokeResult, memory_size, write_message}
use laqista.Wasm.Returning.{slice_at, after_call}
use laqista.Face.{Detection, DetectionRequest, DetectionReply, InferRequest, InferReply, input_of}
use laqista.Face.Server.{Host, AbtsractServer, serve_infer}
use laqista.Face.Running.{called_with, RunsMain, RunsProbability, compile-at}
use laqista.Face.Parameters.{call_of, read-parameters}
use laqista.Face.Calls.{answer_of, call-main, call-probability}
use laqista.Face.Detecting.{detection_on, run_detection}

module _ ⦃d : Detection⦄ where
  open d use {F32, Img}

  -- The messages of one request: it, the picture's values, the inference, and the reply.
  pub record Exchange : Type 0 where
    pub msg : DetectionRequest
    pub img : Img
    pub req : InferRequest F32
    pub resp : InferReply F32
    pub reply : DetectionReply F32

module _ ⦃d : Detection⦄ (results : Codec (Option InvokeResult)) (requests : Codec DetectionRequest)
    (inputs : Codec (InferRequest d.F32)) (outputs : Codec (InferReply d.F32))
    (replies : Codec (DetectionReply d.F32)) where
  -- What the messages take up, with the bytes that are left out between them.
  abbrev pub total : Exchange → Bytes → ℕ → ℕ → ℕ
  total x bytes start n =
      start
      + length (requests.encode x.msg)
      + length (inputs.encode x.req)
      + 1
      + length (results.encode (some (call_of results requests inputs x.msg start bytes x.req)))
      + length (outputs.encode x.resp)
      + length (replies.encode x.reply)
      + 1
      + n

  -- There is room for all messages below 2 GiB. Wherever the reply is, the result that points to it
  -- takes up no more than `n` bytes; the request and the result of the call are not empty.
  pub record Fits (x : Exchange) (bytes : Bytes) (size start n : ℕ) : Type 0 where
    pub request : 0 < length (requests.encode x.msg)
    pub result :
        0 < length (results.encode (some (call_of results requests inputs x.msg start bytes x.req)))
    pub finish :
        (p : ℕ)
        → length (
            results.encode
              (some (InvokeResult.finished (some (slice_at p (length (replies.encode x.reply)))))))
          ≤ n
    pub small : total x bytes start n < 2 ^ 31
    pub enough : total x bytes start n ≤ size

module _ ⦃d : Detection⦄ ⦃h : Host d.F32⦄ (results : Codec (Option InvokeResult))
    (nothing : Codec (Unit {0})) (requests : Codec DetectionRequest)
    (inputs : Codec (InferRequest d.F32)) (outputs : Codec (InferReply d.F32))
    (replies : Codec (DetectionReply d.F32)) where
  open d use {F32, load_from_memory}
  open h use {GpuSession, instantiate}

  -- What the parts make of a request: the application's functions as functions of messages, and the
  -- inference of the service.
  abbrev pub IsAnswered : AbtsractServer GpuSession → Exchange → Type 0
  IsAnswered server x =
      (load_from_memory x.msg.image_png ≡ ok x.img)
      × (input_of x.img ≡ ok x.req)
      × (serve_infer F32 server x.req ≡ ok x.resp)
      × (answer_of x.resp ≡ ok x.reply)

  detection_on-answers :
      (server : AbtsractServer GpuSession) (x : Exchange) (bytes : Bytes) (size s l n : ℕ)
      → RunsMain results nothing requests inputs server.wasm
      → RunsProbability results nothing outputs replies server.wasm
      → IsAnswered server x
      → Fits results requests inputs outputs replies x bytes size (s + l) n
      → (detection_on F32 results requests inputs outputs replies nothing server x.msg
          (at bytes size s l)).0
        ≡ ok x.reply
  unfolding detection_on write_message
  detection_on-answers server x bytes size s l n runs_main runs_probability
        (loaded, input, served, answered) fits =
      let a = requests.encode x.msg in
      let (k, within, read) =
        read-parameters results requests inputs x.msg bytes size s l x.req fits.request fits.result
          (omega (arith, fits.small)) (omega (arith, fits.enough)) in
      let memory = called_with a (s + l) bytes in
      let after =
        after_call results inputs memory "infer" "get_probability" x.req
          (at (copy a (s + l) bytes) size s (l + length a)) in
      rw
        (
          detection_on,
          write-at bytes size s l a (omega (arith, fits.small)) (omega (arith, fits.enough)),
          runs_main (s + l) (length a),
          call-main results nothing requests inputs outputs replies x.msg bytes size s l
              (l + length a) x.img x.req loaded input (omega (arith, fits.small))
              (omega (arith, fits.enough)),
          read,
          served,
          write-at after.bytes size s k (outputs.encode x.resp) (omega (arith, fits.small))
              (omega (arith, fits.enough)),
          runs_probability (s + k) (length (outputs.encode x.resp)),
          call-probability results nothing requests inputs outputs replies x.resp after.bytes size s
              k (k + length (outputs.encode x.resp)) x.reply answered
              (omega (arith, fits.small, fits.finish (s + k + length (outputs.encode x.resp) + 1)))
              (omega
                (arith, fits.enough, fits.finish (s + k + length (outputs.encode x.resp) + 1))),
        )
        refl

  -- Where the application and the inference have an answer for a request, the client gets it. The
  -- request, the picture's values, the inference and the reply pass through the memory of the
  -- runner, where each is read as it was written. The compiled module has the two functions, and
  -- the messages fit into its memory.
  pub run_detection-answers :
      (server : AbtsractServer GpuSession) (x : Exchange) (bytes : Bytes) (n : ℕ)
      → instantiate server.wasm ≡ ok bytes
      → RunsMain results nothing requests inputs server.wasm
      → RunsProbability results nothing outputs replies server.wasm
      → IsAnswered server x
      → Fits results requests inputs outputs replies x bytes memory_size 0 n
      → run_detection F32 results requests inputs outputs replies nothing server x.msg ≡ ok x.reply
  unfolding run_detection
  run_detection-answers server x bytes n made runs_main runs_probability answered fits =
      rw (run_detection, compile-at F32 server.wasm bytes made)
        (detection_on-answers server x bytes memory_size 0 0 n runs_main runs_probability answered
          fits)
