-- ===== src/SpscRing.antt =====
-- core/include/audiofork/spsc_ring.hpp: the byte ring between the media thread and a shard, with
-- indices that run on modulo 2 ^ 64 and a power of two for its capacity. `push` and `pop` are the
-- calls that nothing disturbs; their parts are what `Threads` interleaves.
pub mod Accesses
pub mod Mask
pub mod Slots
pub mod Index
pub mod Copies
pub mod Fifo
pub mod Create
pub mod Threads
pub mod Interleaved
mod Tests
use Prim.Native.Nat.{bit_and}
use mod_audio_fork.Common.{
  ℕ, zero, suc, ◌-◌, ◌*◌, ◌%◌, ◌^◌, min, Bool, true, false, ◌||◌, Option, none, some, List, [], ◌∷◌,
  ◌++◌, ltb, ◌==◌, if◌then◌else◌, length, take, drop, replicate, add64, sub64,
}

pub record SpscRing : Type 0 where
  pub storage : List ℕ
  pub mask : ℕ
  pub head : ℕ
  pub tail : ℕ

-- The loop of `Create` that doubles the capacity.
unfoldable pub grow : (fuel capacity wanted : ℕ) → ℕ
grow zero capacity wanted = capacity
grow (suc fuel) capacity wanted =
    let rest = grow fuel (capacity * 2 % 2 ^ 64) wanted in
    if ltb capacity wanted then rest else capacity

unfoldable pub create : ℕ → Option SpscRing
unfolding grow
create wanted =
    if wanted == 0 || ltb (2 ^ 31) wanted
    then none
    else let capacity = grow 31 1 wanted in
      some (record { storage = replicate capacity 0; mask = capacity - 1; head = 0; tail = 0 })

-- `std::copy` to the storage from an index on.
unfoldable pub overwrite : ℕ → List ℕ → List ℕ → List ℕ
overwrite i bytes [] = []
overwrite zero [] (y ∷ ys) = y ∷ ys
overwrite zero (x ∷ xs) (y ∷ ys) = x ∷ overwrite zero xs ys
overwrite (suc i) bytes (y ∷ ys) = y ∷ overwrite i bytes ys

abbrev pub first_part : (count offset capacity : ℕ) → ℕ
first_part count offset capacity = min count (capacity - offset)

-- `CopyIn` at an offset of the storage.
unfoldable pub copy_to : (offset : ℕ) → List ℕ → List ℕ → List ℕ
unfolding overwrite
copy_to offset bytes storage =
    let first = first_part (length bytes) offset (length storage) in
    overwrite 0 (drop first bytes) (overwrite offset (take first bytes) storage)

unfoldable pub copy_in : List ℕ → (head : ℕ) → SpscRing → List ℕ
unfolding copy_to
copy_in bytes head r = copy_to (bit_and head r.mask) bytes r.storage

-- `CopyOut` from an offset of the storage.
unfoldable pub copy_from : (offset count : ℕ) → List ℕ → List ℕ
copy_from offset count storage =
    let first = first_part count offset (length storage) in
    take first (drop offset storage) ++ take (count - first) storage

unfoldable pub copy_out : (tail count : ℕ) → SpscRing → List ℕ
unfolding copy_from
copy_out tail count r = copy_from (bit_and tail r.mask) count r.storage

-- The room that the producer sees, by the `tail` that it loaded.
abbrev pub free_bytes : (tail : ℕ) → SpscRing → ℕ
free_bytes tail r = sub64 (length r.storage) (sub64 r.head tail)

unfoldable pub push : List ℕ → SpscRing → Bool × SpscRing
unfolding copy_in
push bytes r =
    if ltb (free_bytes r.tail r) (length bytes)
    then (false, r)
    else (true, record r { storage = copy_in bytes r.head r; head = add64 r.head (length bytes) })

-- The bytes that the consumer takes, by the `head` that it loaded and the size of its buffer.
abbrev pub pop_count : (room head : ℕ) → SpscRing → ℕ
pop_count room head r = min room (sub64 head r.tail)

-- The bytes written to the start of a buffer of `room` bytes; their number is returned.
unfoldable pub pop : ℕ → SpscRing → List ℕ × SpscRing
unfolding copy_out
pop room r =
    let count = pop_count room r.head r in
    (copy_out r.tail count r, record r { tail = add64 r.tail count })

abbrev pub size : SpscRing → ℕ
size r = sub64 r.head r.tail
