-- ===== src/SlabQueue/Tests.antt =====
-- Runs of core/src/slab_queue.cpp over a pool of slabs of four bytes.
use mod_audio_fork.Common.{ℕ, ◌≤◌, ◌<◌, ◌≡◌, refl, true, List, [], ◌∷◌, ◌++◌, take, arith}
use mod_audio_fork.SlabPool.{SlabPool, acquire, release, refused}
use mod_audio_fork.SlabQueue.{SlabQueue, append, consume}
use mod_audio_fork.SlabQueue.Contents.{contents, Holds, Keeps}
use mod_audio_fork.SlabQueue.Append.{append_stores}

-- Two slabs leased to the queue, one to another user, no more to be had.
abbrev pool : SlabPool
pool = record {
  options = record { slab_size_bytes = 4; max_total_bytes = 12 };
  free_slabs = [];
  allocated_bytes = 12;
  leased_slabs = 3;
}

-- It holds 7 and 8 at the end of one slab, and 9 at the start of the next.
abbrev queue : SlabQueue
queue = record {
  size = 3;
  chunks =
      record { storage = 5 ∷ 6 ∷ 7 ∷ 8 ∷ []; begin = 2; end = 4 }
      ∷ record { storage = 9 ∷ 0 ∷ 0 ∷ 0 ∷ []; begin = 0; end = 1 }
      ∷ [];
}

abbrev frame : List ℕ
frame = 1 ∷ 2 ∷ 3 ∷ 4 ∷ 5 ∷ []

queue-Holds : Holds pool queue
queue-Holds = omega arith

contents-queue : contents queue.chunks ≡ 7 ∷ 8 ∷ 9 ∷ []
contents-queue = refl

-- Three of the five bytes find room.
append_stops : (append frame pool queue).0 ≡ 3
unfolding append acquire
append_stops = refl

append_stores_example :
    let (n, p', q') = append frame pool queue in
    (contents q'.chunks ≡ contents queue.chunks ++ take n frame)
    × (n ≤ 5)
    × (n < 5 → acquire true p' ≡ refused)
    × Holds p' q'
    × Keeps pool p' queue.chunks q'.chunks
append_stores_example = append_stores frame pool queue queue-Holds

-- The spent slab is free again.
consume_frees : (consume 2 pool queue).0.leased_slabs ≡ 2
unfolding consume release
consume_frees = refl
