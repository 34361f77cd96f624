-- ===== src/Examples/Faces.antt =====
-- The theorems on the answer of the face detector and on how an application writes, with bytes
-- for floating point.
use Prim.Native.Nat.{Ordering}
use laqista.Base.Word.{Byte, as_u8}
use laqista.Base.{
  ◌++◌, map, ℕ, ◌+◌, ◌*◌, ◌^◌, ◌<◌, ◌≤◌, ◌≡◌, ◌⊎◌, refl, ltb, if◌then◌else◌, List, [], ◌∷◌, some,
  ok, panic, arith,
}
use laqista.Wasm.{Slice, Memory, copy, contents}
use laqista.Wasm.Runner.{Codec}
use laqista.Wasm.Exits.{len, write_bytes_in, page_size}
use laqista.Wasm.Growing.{HasSpare, grow_to-enough, write_bytes-overruns}
use laqista.Face.{
  Detection, IsOrder, InferReply, enumerate_from, by_probability, reply_of, get_prob_run,
}
use laqista.Face.Probability.{IsBest, get_prob_run-IsBest}
use laqista.Examples.Sorting.{insertion, insertion-perm, insertion-first}

abbrev compared : Byte → Byte → Ordering
compared p q =
    if ltb p.value q.value
    then Ordering.lt
    else if ltb q.value p.value
    then Ordering.gt
    else Ordering.eq

instance abbrev pub counting : Detection
counting = record {
  F32 = Byte;
  partial_cmp = λ p q. some (compared p q);
  scaled = as_u8;
  Img = List ℕ;
  load_from_memory = λ png. ok (map (λ b. b.value) png);
  resize_to_fill = λ img width height. img;
  get_pixel = λ img i j. img;
  labels = "cat" ∷ "face" ∷ [];
  shown = λ n. "a number";
  sort_by = insertion;
  sort_by-Perm = insertion-perm;
  sort_by-first = insertion-first;
}

counting-IsOrder : (l : List (ℕ × Byte)) → IsOrder by_probability l
counting-IsOrder l = record {
  flip = λ (i, p) (j, q) ma mb h. ground arith;
  trans = λ (i, p) (j, q) (k, s) ma mb mc h1 h2 h3. ground arith;
}

abbrev replies : Codec (InferReply Byte)
replies = record {
  encode = λ m. m.squeezenet0_flatten0_reshape0;
  decode = λ l. ok (record { squeezenet0_flatten0_reshape0 = l });
  decode-encode = λ m. refl;
}

-- The memory holds the probabilities 10 and 90.
abbrev two_probabilities : Memory
two_probabilities = record {
  head = 100;
  last = 102;
  bytes = copy (as_u8 10 ∷ as_u8 90 ∷ []) 100 (λ k. as_u8 0);
}

abbrev inferred : InferReply Byte
inferred = record { squeezenet0_flatten0_reshape0 = as_u8 10 ∷ as_u8 90 ∷ [] }

get_prob_run-IsBest_example :
    ((inferred.squeezenet0_flatten0_reshape0 ≡ [])
      × (get_prob_run replies two_probabilities ≡ panic))
    ⊎ ((best : ℕ × Byte) × IsBest (as_u8 10 ∷ as_u8 90 ∷ []) best
        × (get_prob_run replies two_probabilities ≡ reply_of best))
unfolding contents copy
get_prob_run-IsBest_example =
    get_prob_run-IsBest replies two_probabilities inferred refl
      (counting-IsOrder (enumerate_from 0 (as_u8 10 ∷ as_u8 90 ∷ [])))

-- A buffer of two bytes.
abbrev two_bytes : List Byte
two_bytes = as_u8 7 ∷ as_u8 8 ∷ []

two_probabilities-HasSpare : HasSpare 1 two_probabilities
two_probabilities-HasSpare = record { few = omega arith; ordered = omega arith; room = omega arith }

grow_to-enough_example :
    (pages : ℕ) × (s : Slice) × (m' : Memory) × (write_bytes_in 1 two_probabilities two_bytes
      ≡ ok (pages, s, m'))
    × (s.ptr + s.len ≤ (1 + pages) * page_size + 100)
    × ((1 * page_size ≤ len two_probabilities + 1 + 2) ⊎ (2 ^ 32 < (1 + pages) * page_size))
grow_to-enough_example =
    grow_to-enough 1 two_probabilities two_bytes two_probabilities-HasSpare (omega arith)

abbrev six_bytes : List Byte
six_bytes = two_bytes ++ two_bytes ++ two_bytes

-- The application's part of one page, from the address 4 on.
abbrev nearly_full : Memory
nearly_full = record { head = 4; last = 65533; bytes = λ k. as_u8 0 }

write_bytes-overruns_example :
    (s : Slice) × (m' : Memory) × (write_bytes_in 1 nearly_full six_bytes ≡ ok (0, s, m'))
    × (1 * page_size < s.ptr + s.len)
write_bytes-overruns_example =
    write_bytes-overruns 1 nearly_full six_bytes
      (record { few = omega arith; ordered = omega arith; room = omega arith }) (omega arith) refl
