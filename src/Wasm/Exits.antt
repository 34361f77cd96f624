-- ===== src/Wasm/Exits.antt =====
-- apps/face-wasm/src/interface.rs: how an application hands a result over to the daemon, and
-- `grow_to` of apps/face-wasm/src/memory.rs.
use laqista.Base.Word.{Byte, as_u64}
use laqista.Base.{
  List, length, ◌>>=◌, ℕ, ◌+◌, ◌-◌, ◌*◌, ◌/◌, ◌%◌, ◌^◌, ltb, leb, if◌then◌else◌, String, Option,
  some, Outcome, ok, panic,
}
use laqista.Base.Int.{ℤ}
use laqista.Wasm.{Memory, Slice, Bytes, write_bytes, with_used_len, slice_to_i64}
use laqista.Wasm.Runner.{Codec, MemorySlice, InvokeResult}

-- `setup`
abbrev pub setup : Bytes → ℕ → ℕ → Memory
setup = with_used_len

unfoldable pub wrap_memslice : Slice → Option MemorySlice
wrap_memslice s = some (record { start = as_u64 s.ptr; len = as_u64 s.len })

module _ (results : Codec (Option InvokeResult)) where
  unfoldable pub exit : Memory → InvokeResult → ℤ × Memory
  unfolding write_bytes slice_to_i64
  exit memory result =
      let (out_slice, memory) = write_bytes memory (results.encode (some result)) in
      (slice_to_i64 out_slice.ptr out_slice.len, memory)

  module _ {M : Type 0} (codec : Codec M) where
    unfoldable pub exit_finish : Memory → M → ℤ × Memory
    unfolding write_bytes exit wrap_memslice
    exit_finish memory message =
        let (slic, memory) = write_bytes memory (codec.encode message) in
        exit memory (InvokeResult.finished (wrap_memslice slic))

    unfoldable pub exit_hostcall : Memory → String → String → M → ℤ × Memory
    unfolding write_bytes exit wrap_memslice
    exit_hostcall memory name cont parameters =
        let (slic, memory) = write_bytes memory (codec.encode parameters) in
        exit memory (
          InvokeResult.host_call
            (record { name = name; cont = some cont; parameters = wrap_memslice slic }))

    unfoldable pub exit_error : Memory → String → M → ℤ × Memory
    unfolding write_bytes exit wrap_memslice
    exit_error memory message details =
        let (slic, memory) = write_bytes memory (codec.encode details) in
        exit memory (InvokeResult.error message (wrap_memslice slic))

abbrev pub page_size : ℕ
page_size = 65536

-- `Memory::len`
abbrev pub len : Memory → ℕ
len m = m.last - m.head

-- `Memory::grow_to` in a release build, where a difference of 32 bits wraps: the number of pages
-- that it asks for. The argument is the number of pages that there are.
unfoldable pub grow_to : ℕ → Memory → ℕ → Outcome String ℕ
grow_to current_size m data_len =
    let cap = current_size * page_size % 2 ^ 32 in
    let start = len m + 1 in
    let available = (cap + 2 ^ 32 - start) % 2 ^ 32 in
    let missing = (data_len + 2 ^ 32 - available) % 2 ^ 32 in
    if leb (len m) cap then ok (if ltb 0 missing then missing / page_size + 1 else 0) else panic

-- `Memory::write_bytes` on WebAssembly, with the pages that it asks for: the memory grows first.
-- That the engine makes it larger is not looked at.
unfoldable pub write_bytes_in : ℕ → Memory → List Byte → Outcome String (ℕ × Slice × Memory)
unfolding grow_to write_bytes
write_bytes_in current_size m buffer = grow_to current_size m (length buffer) >>= λ pages.
    let (s, m') = write_bytes m buffer in ok (pages, s, m')
