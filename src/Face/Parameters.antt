-- ===== src/Face/Parameters.antt =====
-- The parameters of a call that the application asks for, as the daemon reads them from the memory.
use laqista.Base.{ℕ, ◌+◌, ◌^◌, ◌<◌, ◌≤◌, ◌≡◌, ◌∙◌, ap, length, Option, some, ok, arith}
use laqista.Wasm.{Bytes, copy, join, with_used_len}
use laqista.Wasm.Pointers.{pointer, join-within}
use laqista.Wasm.Messages.{at}
use laqista.Wasm.Runner.{Codec, InvokeResult, read_message, from_slice}
use laqista.Wasm.Returning.{slice_at, call_result, after_call, first_kept}
use laqista.Face.{Detection, DetectionRequest, InferRequest}
use laqista.Face.Running.{called_with}

module _ ⦃d : Detection⦄ (results : Codec (Option InvokeResult)) (requests : Codec DetectionRequest)
    (inputs : Codec (InferRequest d.F32)) where
  abbrev pub call_of : DetectionRequest → ℕ → Bytes → InferRequest d.F32 → InvokeResult
  call_of msg p bytes req =
      call_result results inputs (called_with (requests.encode msg) p bytes) "infer"
        "get_probability" req

  -- The parameters of the call are read; the pointer stays within the messages that have passed.
  pub read-parameters :
      (msg : DetectionRequest) (bytes : Bytes) (size s l : ℕ) (req : InferRequest d.F32)
      → let a = requests.encode msg in
        let b = length (inputs.encode req) in
        let c = length (results.encode (some (call_of msg (s + l) bytes req))) in
        let all = s + l + length a + b + 1 + c in
        let memory = called_with a (s + l) bytes in
        let after =
          after_call results inputs memory "infer" "get_probability" req
            (at (copy a (s + l) bytes) size s (l + length a)) in
        0 < length a
        → 0 < c
        → all < 2 ^ 31
        → all ≤ size
        → (k : ℕ) × (s + k ≤ all)
          × (read_message inputs (from_slice (slice_at (memory.last + 1) b)) after
              ≡ (ok req, at after.bytes size s k))
  unfolding with_used_len
  read-parameters msg bytes size s l req some_bytes some_result small fits =
      let a = requests.encode msg in
      let b = length (inputs.encode req) in
      let result = results.encode (some (call_of msg (s + l) bytes req)) in
      let (k, k_pos, k_le, e) =
        join-within s (l + length a) (s + l + length a + b + 1) (length result) (omega arith)
          (omega arith) (omega arith) (omega arith) in
      let (k', k'_pos, k'_le, e') =
        join-within s k (s + l + length a + 1) b k_pos (omega arith) (omega arith) (omega arith) in
      (
        k',
        omega arith,
        first_kept results inputs (called_with a (s + l) bytes) req result size
              (join (pointer s (l + length a)) (pointer (s + l + length a + b + 1) (length result)))
              small fits
            ∙ ap
                (λ p. (
                  ok req,
                  record {
                    bytes =
                        copy result (s + l + length a + b + 1)
                          (copy (inputs.encode req) (s + l + length a + 1) (copy a (s + l) bytes));
                    size = size;
                    ptr = p;
                  },
                ))
                (ap (λ p. join p (pointer (s + l + length a + 1) b)) e ∙ e'),
      )
