-- ===== src/Wasm/Runner.antt =====
-- `WasmRunner` of laqista-core/src/wasm.rs: the memory that the daemon shares with an application,
-- and the calls into it. The engine (wasmer) and the wire format (prost) are parameters.
use laqista.Base.Word.{Byte, U64}
use laqista.Base.{
  ℕ, ◌+◌, ◌≡◌, leb, String, if◌then◌else◌, List, length, Option, Outcome, ok, err, panic, ok_or,
  map_ok, ◌*◌,
}
use laqista.Base.Int.{ℤ, pos, negsuc, as_i32}
use laqista.Base.Text.{str_append}
use laqista.Base.Task.{Task, pure, lift, ◌>>=◌}
use laqista.Wasm.{WasmPointer, next, consume, join, from_i64, Bytes, copy, contents}

-- A message type of `prost`: what is encoded is decoded.
pub record Codec (M : Type 0) : Type 0 where
  pub encode : M → List Byte
  pub decode : List Byte → Outcome String M
  pub decode-encode : (m : M) → decode (encode m) ≡ ok m

pub record MemorySlice : Type 0 where
  pub start : U64
  pub len : U64

pub record HostCall : Type 0 where
  pub name : String
  pub cont : Option String
  pub parameters : Option MemorySlice

-- What an invocation of the application ends in.
pub data InvokeResult : Type 0 where
  finished : Option MemorySlice → InvokeResult
  host_call : HostCall → InvokeResult
  error : String → Option MemorySlice → InvokeResult

pub record WasmRunner : Type 0 where
  pub bytes : Bytes
  pub size : ℕ
  pub ptr : WasmPointer

-- The memory of a runner: 21 pages.
abbrev pub memory_size : ℕ
memory_size = 21 * 65536

-- `WasmRunner::compile`: the engine makes an instance of the module, with what its memory holds
-- then.
unfoldable pub compile_with : (List ℕ → Outcome String Bytes) → List ℕ → Outcome String WasmRunner
compile_with instantiate wasm =
    map_ok
      (λ bytes. record {
        bytes = bytes;
        size = memory_size;
        ptr = record { start = pos 0; len = pos 0 };
      })
      (instantiate wasm)

pub data ExecState (M : Type 0) : Type 0 where
  finished : M → ExecState M
  continue : HostCall → ExecState M

module _ {M : Type 0} where
  unfoldable pub unwrap_finished : ExecState M → Outcome String M
  unwrap_finished (ExecState.finished m) = ok m
  unwrap_finished (ExecState.continue c) = panic

  unfoldable pub unwrap_continue : ExecState M → Outcome String HostCall
  unwrap_continue (ExecState.finished m) = panic
  unwrap_continue (ExecState.continue c) = ok c

-- An access of `n` bytes. A negative address, as a number of 64 bits, lies out of every memory.
abbrev pub access : {A : Type 0} → ℤ → ℕ → (ℕ → Task WasmRunner String A) → Task WasmRunner String A
access (pos start) n body r =
    if leb (start + n) r.size then body start r else (err "out of bounds memory access", r)
access (negsuc start) n body r = (err "out of bounds memory access", r)

-- `WasmRunner::write_bytes`
unfoldable pub write : List Byte → Task WasmRunner String WasmPointer
write buffer r =
    access (next r.ptr) (length buffer)
      (λ start r. (
        ok (record { start = next r.ptr; len = as_i32 (pos (length buffer)) }),
        record r {
          bytes = copy buffer start r.bytes;
          ptr = consume r.ptr (as_i32 (pos (length buffer)));
        },
      ))
      r

-- `WasmRunner::read_bytes`: a buffer of a negative length is a panic.
unfoldable pub read_bytes : WasmPointer → Task WasmRunner String (List Byte)
read_bytes p r = elim p.len [
  | negsuc n ↦ (panic, r)
  | pos n ↦
      access p.start n (λ start r. (ok (contents r.bytes start n), record r { ptr = join r.ptr p }))
        r
]

module _ {M : Type 0} (codec : Codec M) where
  unfoldable pub write_message : M → Task WasmRunner String WasmPointer
  unfolding write
  write_message m = write (codec.encode m)

  unfoldable pub read_message : WasmPointer → Task WasmRunner String M
  unfolding read_bytes
  read_message p = do buffer ← read_bytes p; lift (codec.decode buffer)

-- `From<MemorySlice>`
unfoldable pub from_slice : MemorySlice → WasmPointer
from_slice s = record { start = as_i32 (pos s.start.value); len = as_i32 (pos s.len.value) }

module _ {M : Type 0} (results : Codec (Option InvokeResult)) (codec : Codec M) where
  -- What `call` makes of a result.
  unfoldable pub exec_state : InvokeResult → Task WasmRunner String (ExecState M)
  unfolding read_message from_slice
  exec_state (InvokeResult.finished slice) = do
    ptr ← lift (ok_or "Failed to read finished result" slice)
    out ← read_message codec (from_slice ptr)
    pure (ExecState.finished out)
  exec_state (InvokeResult.host_call c) = pure (ExecState.continue c)
  exec_state (InvokeResult.error message details) =
      lift (err (str_append "Error in WASM function: " message))

  -- `WasmRunner::call`: the function returns a pointer to a message, whose result may be missing.
  unfoldable pub call : Task WasmRunner String ℤ → Task WasmRunner String (ExecState M)
  unfolding exec_state read_message from_i64
  call func = do
    value ← func
    message ← read_message results (from_i64 value)
    result ← lift (ok_or "Failed to read invoke result" message)
    exec_state result
