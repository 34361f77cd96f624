-- ===== src/Face/Server.antt =====
-- laqista-core/src/session.rs, laqista-core/src/server.rs and apps/face/src/server.rs: the
-- service's state and its inference. The engine (wasmer) and what runs the model (wonnx) are
-- parameters.
use laqista.Base.{ℕ, String, List, Outcome, ok, ◌>>=◌, map_err}
use laqista.Base.Int.{ℤ}
use laqista.Base.Text.{str_append}
use laqista.Base.Task.{Task}
use laqista.Types.{Status, abort}
use laqista.Wasm.{WasmPointer, Bytes}
use laqista.Wasm.Runner.{WasmRunner, compile_with}
use laqista.Face.{InferRequest, InferReply}
use laqista.Face.Tensor.{Inputs, Outputs, as_inputs, try_from, show_error}

-- The session of wonnx; the engine, which makes an instance of a module with its memory, and whose
-- functions are called by their names on a pointer and a length.
pub record Host (F : Type 0) : Type 1 where
  pub GpuSession : Type 0
  pub gpu_session : List ℕ → Outcome String GpuSession
  pub gpu_run : GpuSession → Inputs F → Outcome String (Outputs F)
  pub instantiate : List ℕ → Outcome String Bytes
  pub function : List ℕ → String → WasmPointer → Task WasmRunner String ℤ

-- `Session`
pub record Session (G : Type 0) : Type 0 where
  pub inner : G

-- `AbtsractServer`
pub record AbtsractServer (G : Type 0) : Type 0 where
  pub session : Session G
  pub onnx : List ℕ
  pub wasm : List ℕ

module _ (F : Type 0) ⦃h : Host F⦄ where
  open h use {GpuSession, gpu_session, gpu_run, instantiate}

  -- `Session::from_bytes`
  unfoldable pub from_bytes : List ℕ → Outcome String (Session GpuSession)
  from_bytes bytes = do inner ← gpu_session bytes; ok (record { inner = inner })

  -- `Session::detect`
  unfoldable pub detect : Session GpuSession → Inputs F → Outcome String (Outputs F)
  detect session input = do output ← gpu_run session.inner input; ok output

  -- `WasmRunner::compile`
  abbrev pub compile : List ℕ → Outcome String WasmRunner
  compile = compile_with instantiate

  -- `AbtsractServer::infer`
  unfoldable pub infer : AbtsractServer GpuSession → InferRequest F → Outcome String (InferReply F)
  unfolding detect
  infer server input = do
    output ← detect server.session (as_inputs input)
    map_err show_error (try_from output)

  -- `FaceServer::create`
  unfoldable pub create : List ℕ → List ℕ → Outcome String (AbtsractServer GpuSession)
  unfolding from_bytes
  create onnx wasm = do
    session ← from_bytes onnx
    ok (record { session = session; onnx = onnx; wasm = wasm })

  -- `infer` of the service.
  unfoldable pub serve_infer :
      AbtsractServer GpuSession → InferRequest F → Outcome Status (InferReply F)
  unfolding infer
  serve_infer server request =
      map_err (λ e. abort (str_append "could not run inference: " e)) (infer server request)
