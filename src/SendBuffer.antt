-- ===== src/SendBuffer.antt =====
-- core/include/audiofork/send_buffer.hpp and core/src/send_buffer.cpp: the outbound audio, a
-- SlabQueue that drops its oldest bytes when the cap or the pool is reached. `Peek`, `Consume`,
-- `Clear`, `size` and `empty` are the queue's.
pub mod Store
pub mod Newest
mod Tests
use mod_audio_fork.Common.{
  ℕ, zero, suc, ◌+◌, ◌-◌, Bool, true, false, ◌||◌, List, [], ◌∷◌, ltb, leb, ◌==◌, if◌then◌else◌,
  length, drop,
}
use mod_audio_fork.SlabPool.{SlabPool}
use mod_audio_fork.SlabQueue
use mod_audio_fork.SlabQueue.{SlabQueue}

pub record SendBuffer : Type 0 where
  pub queue : SlabQueue
  pub cap_bytes : ℕ

pub record AppendResult : Type 0 where
  pub dropped_bytes : ℕ
  pub pool_exhausted : Bool

-- `before - queue_.size()` does not wrap: consuming makes no queue larger.
unfoldable pub drop_oldest : ℕ → SlabPool → SlabQueue → ℕ × SlabPool × SlabQueue
drop_oldest bytes p q = let (p', q') = SlabQueue.consume bytes p q in (q.size - q'.size, p', q')

abbrev pub Stored : Type 0
Stored = AppendResult × SlabPool × SlabQueue

-- The end of the loop's body, by the bytes that the queue did not take; `loop` is the next round.
unfoldable pub store_rest :
    (List ℕ → AppendResult → SlabPool → SlabQueue → Stored)
    → List ℕ
    → AppendResult
    → SlabPool
    → SlabQueue
    → Stored
unfolding drop_oldest
store_rest loop [] r p q = (r, p, q)
store_rest loop (b ∷ bs) r p q =
    let (reclaimed, p', q') = drop_oldest (length (b ∷ bs)) p q in
    let r' = record r { dropped_bytes = r.dropped_bytes + reclaimed; pool_exhausted = true } in
    elim (reclaimed == 0) [
      | true ↦ (record r' { dropped_bytes = r'.dropped_bytes + length (b ∷ bs) }, p', q')
      | false ↦ loop (b ∷ bs) r' p' q'
    ]

-- The loop of `Append`: each round but the last drops a byte of the queue or of what remains.
unfoldable pub store_loop : ℕ → List ℕ → AppendResult → SlabPool → SlabQueue → Stored
unfolding store_rest
store_loop zero bytes r p q = (r, p, q)
store_loop (suc fuel) [] r p q = (r, p, q)
store_loop (suc fuel) (b ∷ bs) r p q =
    let (stored, p', q') = SlabQueue.append (b ∷ bs) p q in
    store_rest (store_loop fuel) (drop stored (b ∷ bs)) r p' q'

-- A frame larger than the whole cap keeps only its tail.
abbrev pub skipped : ℕ → List ℕ → ℕ
skipped cap bytes = if ltb cap (length bytes) then length bytes - cap else 0

unfoldable pub make_way : ℕ → ℕ → SlabPool → SlabQueue → ℕ × SlabPool × SlabQueue
unfolding drop_oldest
make_way cap remaining p q =
    if ltb cap (q.size + remaining) then drop_oldest (q.size + remaining - cap) p q else (0, p, q)

abbrev pub put_queue : SendBuffer → Stored → AppendResult × SlabPool × SendBuffer
put_queue b (r, p, q) = (r, p, record b { queue = q })

unfoldable pub append : List ℕ → SlabPool → SendBuffer → AppendResult × SlabPool × SendBuffer
unfolding make_way store_loop
append bytes p b =
    if length bytes == 0 || b.cap_bytes == 0
    then (record { dropped_bytes = length bytes; pool_exhausted = false }, p, b)
    else let skip = skipped b.cap_bytes bytes in
      let (dropped, p', q') = make_way b.cap_bytes (length bytes - skip) p b.queue in
      put_queue b (
        store_loop (suc (q'.size + (length bytes - skip))) (drop skip bytes)
          (record { dropped_bytes = skip + dropped; pool_exhausted = false }) p' q')

unfoldable pub set_cap : ℕ → SlabPool → SendBuffer → ℕ × SlabPool × SendBuffer
unfolding drop_oldest
set_cap cap p b =
    if leb b.queue.size cap
    then (0, p, record b { cap_bytes = cap })
    else let (dropped, p', q') = drop_oldest (b.queue.size - cap) p b.queue in
      (dropped, p', record { queue = q'; cap_bytes = cap })
