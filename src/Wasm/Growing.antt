-- ===== src/Wasm/Growing.antt =====
-- How much memory an application asks for, and where it writes then.
use laqista.Base.Word.{Byte}
use laqista.Base.{
  ℕ, ◌+◌, ◌-◌, ◌*◌, ◌/◌, ◌%◌, ◌^◌, ◌<◌, ◌≤◌, ◌≡◌, ◌⊎◌, ltb, if◌then◌else◌, List, length, ok, arith,
}
use laqista.Wasm.{Memory, Slice, write_bytes}
use laqista.Wasm.Exits.{grow_to, write_bytes_in, len, page_size}

-- Of less than 4 GiB, the memory uses those from its first to its last address, and more than the
-- byte behind them is free.
pub record HasSpare (current_size : ℕ) (m : Memory) : Type 0 where
  pub few : current_size < 65536
  pub ordered : m.head ≤ m.last
  pub room : m.last + 1 < current_size * page_size

-- After the growth, the bytes that are written end within the memory, except for at most as many as
-- there are addresses below the memory's first one. So they fit into a memory that starts at zero.
-- But if more bytes are free than are needed, the memory is to grow beyond the 4 GiB that there can
-- be.
pub grow_to-enough :
    (current_size : ℕ) (m : Memory) (buffer : List Byte)
    → HasSpare current_size m
    → length buffer < 2 ^ 32
    → (pages : ℕ) × (s : Slice) × (m' : Memory) × (write_bytes_in current_size m buffer
        ≡ ok (pages, s, m'))
      × (s.ptr + s.len ≤ (current_size + pages) * page_size + m.head)
      × ((current_size * page_size ≤ len m + 1 + length buffer)
          ⊎ (2 ^ 32 < (current_size + pages) * page_size))
unfolding write_bytes_in grow_to write_bytes
grow_to-enough current_size m buffer spare small =
    let missing =
      (length buffer + 2 ^ 32 - (current_size * page_size + 2 ^ 32 - (len m + 1)) % 2 ^ 32)
      % 2 ^ 32 in
    (
      (if ltb 0 missing then missing / page_size + 1 else 0),
      (write_bytes m buffer).0,
      (write_bytes m buffer).1,
      ground (arith, spare.few, spare.ordered, spare.room),
      ground (arith, spare.few, spare.ordered, spare.room),
      ground (arith, spare.few, spare.ordered, spare.room),
    )

-- The growth counts from the first address of the memory, and the bytes are written behind its last
-- one. Where a memory does not start at zero, and its length with the new bytes is that of all
-- there is, nothing is asked for, and the bytes are written beyond the end.
pub write_bytes-overruns :
    (current_size : ℕ) (m : Memory) (buffer : List Byte)
    → HasSpare current_size m
    → 0 < m.head
    → len m + 1 + length buffer ≡ current_size * page_size
    → (s : Slice) × (m' : Memory) × (write_bytes_in current_size m buffer ≡ ok (0, s, m'))
      × (current_size * page_size < s.ptr + s.len)
unfolding write_bytes_in grow_to write_bytes
write_bytes-overruns current_size m buffer spare started full = (
  (write_bytes m buffer).0,
  (write_bytes m buffer).1,
  ground (arith, spare.few, spare.ordered, spare.room),
  omega (arith, spare.few, spare.ordered, spare.room),
)
