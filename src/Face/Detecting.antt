-- ===== src/Face/Detecting.antt =====
-- `run_detection` of apps/face/src/server.rs: the service runs the two functions of the application
-- one after the other, with the inference between them.
use laqista.Base.{String, Option, Outcome, ok, err, panic, blocked, map_err, ok_or}
use laqista.Base.Text.{str_append}
use laqista.Base.Task.{Task, lift, ◌>>=◌}
use laqista.Types.{Status, abort}
use laqista.Wasm.Runner.{
  Codec, WasmRunner, InvokeResult, write_message, read_message, call, unwrap_continue,
  unwrap_finished, from_slice,
}
use laqista.Face.{DetectionRequest, DetectionReply, InferRequest, InferReply}
use laqista.Face.Server.{Host, AbtsractServer, serve_infer, compile}

-- An error of the runner becomes a status.
abbrev pub aborting : {A : Type 0} → String → Task WasmRunner String A → Task WasmRunner Status A
aborting context t r = let (o, r) = t r in (map_err (λ e. abort (str_append context e)) o, r)

-- A task from the runner that a module is compiled to.
abbrev pub started :
    {A : Type 0} → Outcome Status WasmRunner → Task WasmRunner Status A → Outcome Status A
started (ok r) t = (t r).0
started (err e) t = err e
started panic t = panic
started blocked t = blocked

module _ (F : Type 0) ⦃h : Host F⦄ (results : Codec (Option InvokeResult))
    (requests : Codec DetectionRequest) (inputs : Codec (InferRequest F))
    (outputs : Codec (InferReply F)) (replies : Codec (DetectionReply F))
    (nothing : Codec (Unit {0})) where
  open h use {GpuSession, function}

  -- What is done with the runner.
  unfoldable pub detection_on :
      AbtsractServer GpuSession → DetectionRequest → Task WasmRunner Status (DetectionReply F)
  unfolding serve_infer write_message read_message call unwrap_continue unwrap_finished from_slice
  detection_on server msg = do
    ptr ← aborting "Failed to write request data to wasm memory: " (write_message requests msg)
    state ←
        aborting "Failed to call WebAssembly function: "
          (call results nothing (function server.wasm "main" ptr))
    c ← lift (map_err abort (unwrap_continue state))
    param_ptr ← lift (ok_or (abort "Failed to read HostCall: cont is null") c.parameters)
    params ←
        aborting "Failed to read infer parameters from wasm memory: "
          (read_message inputs (from_slice param_ptr))
    resp ← lift (serve_infer F server params)
    ptr ← aborting "Failed to write infer reply to wasm memory: " (write_message outputs resp)
    cont ← lift (ok_or (abort "Failed to read HostCall: cont is null") c.cont)
    state ←
        aborting "Failed to call WebAssembly function (2): "
          (call results replies (function server.wasm cont ptr))
    lift (map_err abort (unwrap_finished state))

  -- The module is compiled for each request.
  unfoldable pub run_detection :
      AbtsractServer GpuSession → DetectionRequest → Outcome Status (DetectionReply F)
  unfolding detection_on
  run_detection server msg =
      started
        (map_err (λ e. abort (str_append "Failed to compile and setup wasm module: " e))
          (compile F server.wasm))
        (detection_on server msg)
