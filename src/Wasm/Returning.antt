-- ===== src/Wasm/Returning.antt =====
-- What the daemon's call reads of what an application hands over.
use laqista.Base.Int.{as_i32}
use laqista.Base.{◌%◌}
use laqista.Base.Word.{Byte, as_u64}
use laqista.Base.{
  ℕ, ◌+◌, ◌^◌, ◌<◌, ◌≤◌, ◌≡◌, refl, ap, ◌∙◌, String, List, length, Option, some, Outcome, ok, err,
  arith,
}
use laqista.Base.Int.{ℤ, pos}
use laqista.Base.Text.{str_append}
use laqista.Base.Task.{Task}
use laqista.Wasm.{Memory, Bytes, WasmPointer, join, copy, from_i64, slice_to_i64}
use laqista.Wasm.Pointers.{pointer, from_i64-slice_to_i64}
use laqista.Wasm.Writes.{contents-copy, contents-copy-below}
use laqista.Wasm.Messages.{read_message-at, as_i32-small, read_bytes-at}
use laqista.Wasm.Runner.{
  Codec, WasmRunner, MemorySlice, HostCall, InvokeResult, ExecState, read_message, from_slice,
  exec_state, call,
}
use laqista.Wasm.Exits.{exit_finish, exit_hostcall, exit_error}

-- A function of the application, as the daemon sees it: it leaves the memory and a value.
abbrev pub returning : ℤ × Memory → Task WasmRunner String ℤ
returning (value, memory) r = (ok value, record r { bytes = memory.bytes })

abbrev pub slice_at : ℕ → ℕ → MemorySlice
slice_at start n = record { start = as_u64 start; len = as_u64 n }

module _ (results : Codec (Option InvokeResult)) {M : Type 0} (codec : Codec M) where
  -- A result stands in the memory where the value points to.
  read_result :
      (result : InvokeResult) (start : ℕ) (bytes : Bytes) (r : WasmRunner)
      → start + length (results.encode (some result)) < 2 ^ 31
      → start + length (results.encode (some result)) ≤ r.size
      → let b = results.encode (some result) in
        read_message results
          (from_i64 (slice_to_i64 start (length b)))
          (record r { bytes = copy b start bytes })
        ≡ (
          ok (some result),
          record r { bytes = copy b start bytes; ptr = join r.ptr (pointer start (length b)) },
        )
  unfolding read_message
  read_result result start bytes r small fits =
      let b = results.encode (some result) in
      rw (from_i64-slice_to_i64 start (length b) (omega arith) (omega arith)) (
        rw (read_bytes-at (copy b start bytes) r.size r.ptr start (length b) fits)
          (rw (contents-copy b start bytes) (rw (results.decode-encode (some result)) refl)))

  -- Two messages of these lengths have room behind what the application uses, below 2 GiB.
  abbrev pub HasRoom : Memory → WasmRunner → ℕ → ℕ → Type 0
  HasRoom memory r n k = (memory.last + n + 1 + k < 2 ^ 31) × (memory.last + n + 1 + k ≤ r.size)

  abbrev pub finish_of : Memory → M → InvokeResult
  finish_of memory message =
      InvokeResult.finished (some (slice_at (memory.last + 1) (length (codec.encode message))))

  abbrev pub error_of : Memory → String → M → InvokeResult
  error_of memory message details =
      InvokeResult.error message (some (slice_at (memory.last + 1) (length (codec.encode details))))

  from_slice-small :
      (start n : ℕ) → start + n < 2 ^ 31 → from_slice (slice_at start n) ≡ pointer start n
  unfolding from_slice
  from_slice-small start n h =
      let kept : start % 2 ^ 64 ≡ start = omega arith in
      let kept' : n % 2 ^ 64 ≡ n = omega arith in
      ap (λ k. record { start = as_i32 (pos k); len = as_i32 (pos (n % 2 ^ 64)) }) kept
      ∙ ap (λ k. record { start = as_i32 (pos start); len = as_i32 (pos k) }) kept'
      ∙ ap (λ z. record { start = z; len = as_i32 (pos n) }) (as_i32-small start (omega arith))
      ∙ ap (λ z. record { start = pos start; len = z }) (as_i32-small n (omega arith))

  -- The first of two messages is still there when the second one has been written.
  pub first_kept :
      (memory : Memory) (message : M) (b : List Byte) (size : ℕ) (ptr : WasmPointer)
      → memory.last + length (codec.encode message) + 1 + length b < 2 ^ 31
      → memory.last + length (codec.encode message) + 1 + length b ≤ size
      → let a = codec.encode message in
        let bytes = copy b (memory.last + length a + 1) (copy a (memory.last + 1) memory.bytes) in
        read_message codec
          (from_slice (slice_at (memory.last + 1) (length a)))
          (record { bytes = bytes; size = size; ptr = ptr })
        ≡ (
          ok message,
          record {
            bytes = bytes;
            size = size;
            ptr = join ptr (pointer (memory.last + 1) (length a));
          },
        )
  first_kept memory message b size ptr small fits =
      let a = codec.encode message in
      rw (from_slice-small (memory.last + 1) (length a) (omega arith)) (
        read_message-at codec message _ size (memory.last + 1) ptr (omega arith) (
          contents-copy-below b (memory.last + length a + 1) (copy a (memory.last + 1) memory.bytes)
            (memory.last + 1) (length a) (omega arith)
          ∙ contents-copy a (memory.last + 1) memory.bytes))

  -- What `exit_finish` hands over is the result of the daemon's call.
  pub call-exit_finish :
      (memory : Memory) (message : M) (r : WasmRunner)
      → HasRoom memory r
          (length (codec.encode message))
          (length (results.encode (some (finish_of memory message))))
      → (call results codec (returning (exit_finish results codec memory message)) r).0
        ≡ ok (ExecState.finished message)
  unfolding call exec_state exit_finish
  call-exit_finish memory message r (small, fits) =
      let a = codec.encode message in
      let result = finish_of memory message in
      rw
        (read_result result (memory.last + length a + 1) (copy a (memory.last + 1) memory.bytes) r
          small fits)
        (rw
          (first_kept memory message (results.encode (some result)) r.size
            (join r.ptr
              (pointer (memory.last + length a + 1) (length (results.encode (some result)))))
            small fits)
          refl)

  abbrev pub host_call_of : Memory → String → String → M → HostCall
  host_call_of memory name cont parameters = record {
    name = name;
    cont = some cont;
    parameters = some (slice_at (memory.last + 1) (length (codec.encode parameters)));
  }

  abbrev pub call_result : Memory → String → String → M → InvokeResult
  call_result memory name cont parameters =
      InvokeResult.host_call (host_call_of memory name cont parameters)

  -- The runner after the application has called the host.
  abbrev pub after_call : Memory → String → String → M → WasmRunner → WasmRunner
  after_call memory name cont parameters r =
      let a = codec.encode parameters in
      let b = results.encode (some (call_result memory name cont parameters)) in
      record {
        bytes = copy b (memory.last + length a + 1) (copy a (memory.last + 1) memory.bytes);
        size = r.size;
        ptr = join r.ptr (pointer (memory.last + length a + 1) (length b));
      }

  pub call-continues :
      {N : Type 0} (out : Codec N) (memory : Memory) (name cont : String) (parameters : M)
      (r : WasmRunner)
      → HasRoom memory r
          (length (codec.encode parameters))
          (length (results.encode (some (call_result memory name cont parameters))))
      → call results out (returning (exit_hostcall results codec memory name cont parameters)) r ≡ (
        ok (ExecState.continue (host_call_of memory name cont parameters)),
        after_call memory name cont parameters r,
      )
  unfolding call exec_state exit_hostcall
  call-continues out memory name cont parameters r (small, fits) =
      rw
        (read_result (call_result memory name cont parameters)
          (memory.last + length (codec.encode parameters) + 1)
          (copy (codec.encode parameters) (memory.last + 1) memory.bytes) r small fits)
        refl

  -- What `exit_hostcall` hands over lets the daemon go on with that call, and its parameters are
  -- read from the memory where the call says that they are.
  pub call-exit_hostcall :
      {N : Type 0} (out : Codec N) (memory : Memory) (name cont : String) (parameters : M)
      (r : WasmRunner)
      → HasRoom memory r
          (length (codec.encode parameters))
          (length (results.encode (some (call_result memory name cont parameters))))
      → let (o, after) =
          call results out
            (returning (exit_hostcall results codec memory name cont parameters))
            r in
        (o ≡ ok (ExecState.continue (host_call_of memory name cont parameters)))
        × ((read_message codec
              (from_slice (slice_at (memory.last + 1) (length (codec.encode parameters))))
              after).0
            ≡ ok parameters)
  call-exit_hostcall out memory name cont parameters r (small, fits) =
      let result = results.encode (some (call_result memory name cont parameters)) in
      rw (call-continues out memory name cont parameters r (small, fits)) (
        refl,
        ap (λ (p : Outcome String M × WasmRunner). p.0)
            (first_kept memory parameters result r.size
              (join r.ptr
                (pointer (memory.last + length (codec.encode parameters) + 1) (length result)))
              small fits),
      )

  -- What `exit_error` hands over is an error of the daemon's call, with its message.
  pub call-exit_error :
      {N : Type 0} (out : Codec N) (memory : Memory) (message : String) (details : M)
      (r : WasmRunner)
      → HasRoom memory r
          (length (codec.encode details))
          (length (results.encode (some (error_of memory message details))))
      → (call results out (returning (exit_error results codec memory message details)) r).0
        ≡ err (str_append "Error in WASM function: " message)
  unfolding call exec_state exit_error
  call-exit_error out memory message details r (small, fits) =
      let a = codec.encode details in
      rw
        (read_result (error_of memory message details) (memory.last + length a + 1)
          (copy a (memory.last + 1) memory.bytes) r small fits)
        refl
