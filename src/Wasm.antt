-- ===== src/Wasm.antt =====
-- How a daemon and an application in WebAssembly pass bytes: `WasmPointer` of
-- laqista-core/src/wasm.rs on the side of the daemon, and `Memory` and `slice_to_i64` of
-- apps/face-wasm/src on the side of the application. Arithmetic of 32 bits wraps.
pub mod Pointers
pub mod Writes
pub mod Runner
pub mod Messages
pub mod Exits
pub mod Returning
pub mod Growing
use laqista.Base.Word.{Byte}
use laqista.Base.{
  ℕ, zero, suc, ◌+◌, ◌*◌, ◌/◌, ◌%◌, ◌^◌, ◌==◌, leb, if◌then◌else◌, List, [], ◌∷◌, length,
}
use laqista.Base.Int.{ℤ, pos, ◌+ℤ◌, ◌-ℤ◌, ltb_ℤ, word, signed32, signed64, as_i32}

pub record WasmPointer : Type 0 where
  pub start : ℤ
  pub len : ℤ

unfoldable pub last : WasmPointer → ℤ
last p = as_i32 (as_i32 (p.start +ℤ p.len) -ℤ pos 1)

unfoldable pub next : WasmPointer → ℤ
unfolding last
next p = as_i32 (last p +ℤ pos 1)

unfoldable pub consume : WasmPointer → ℤ → WasmPointer
consume p consumed = record p { len = as_i32 (p.len +ℤ consumed) }

unfoldable pub join : WasmPointer → WasmPointer → WasmPointer
unfolding last
join p other =
    if ltb_ℤ (last p) (last other) then record p { len = as_i32 (last other -ℤ last p) } else p

-- `From<i64>`: the start is in the upper 32 bits, the length in the lower.
unfoldable pub from_i64 : ℤ → WasmPointer
from_i64 value = record {
  start = signed32 (word (2 ^ 64) value / 2 ^ 32);
  len = signed32 (word (2 ^ 64) value % 2 ^ 32);
}

-- The application's side. An address and a length have 32 bits there, so the two operands of `|`
-- have no bit in common, and it adds them.
unfoldable pub slice_to_i64 : ℕ → ℕ → ℤ
slice_to_i64 ptr len = signed64 (ptr * 2 ^ 32 % 2 ^ 64 + len)

-- What stands at each address.
abbrev pub Bytes : Type 0
Bytes = ℕ → Byte

pub record Memory : Type 0 where
  pub head : ℕ
  pub last : ℕ
  pub bytes : Bytes

-- `Memory::with_used_len`
unfoldable pub with_used_len : Bytes → ℕ → ℕ → Memory
with_used_len bytes ptr len = record { head = ptr; last = ptr + len; bytes = bytes }

-- `std::ptr::copy`
unfoldable pub copy : List Byte → ℕ → Bytes → Bytes
copy [] start bytes k = bytes k
copy (x ∷ xs) start bytes k = if k == start then x else copy xs (suc start) bytes k

-- `get_slice`: the address and the length of what is written, as a slice is in Rust.
pub record Slice : Type 0 where
  pub ptr : ℕ
  pub len : ℕ

unfoldable pub contents : Bytes → ℕ → ℕ → List Byte
contents bytes start zero = []
contents bytes start (suc n) = bytes start ∷ contents bytes (suc start) n

-- What `Memory::write_bytes` does once the memory has grown.
unfoldable pub write_bytes : Memory → List Byte → Slice × Memory
unfolding copy
write_bytes m buffer =
    let start = m.last + 1 in
    (
      record { ptr = start; len = length buffer },
      record m { last = m.last + length buffer; bytes = copy buffer start m.bytes },
    )
