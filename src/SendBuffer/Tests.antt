-- ===== src/SendBuffer/Tests.antt =====
-- Runs of core/src/send_buffer.cpp over a pool that has no more slabs to give.
use mod_audio_fork.Common.{ℕ, ◌+◌, min, ◌≡◌, refl, true, false, List, [], ◌∷◌, length, arith}
use mod_audio_fork.SlabPool.{SlabPool, acquire, release}
use mod_audio_fork.SlabQueue.{consume}
use mod_audio_fork.SlabQueue
use mod_audio_fork.SendBuffer.{SendBuffer, append}
use mod_audio_fork.SendBuffer.Newest.{audio, IsValid, Newest, append-Newest}

abbrev pool : SlabPool
pool = record {
  options = record { slab_size_bytes = 4; max_total_bytes = 8 };
  free_slabs = [];
  allocated_bytes = 8;
  leased_slabs = 2;
}

-- Seven bytes of at most ten: 1 to 7.
abbrev buffer : SendBuffer
buffer = record {
  queue = record {
    size = 7;
    chunks =
        record { storage = 1 ∷ 2 ∷ 3 ∷ 4 ∷ []; begin = 0; end = 4 }
        ∷ record { storage = 5 ∷ 6 ∷ 7 ∷ 0 ∷ []; begin = 0; end = 3 }
        ∷ [];
  };
  cap_bytes = 10;
}

buffer-IsValid : IsValid pool buffer
buffer-IsValid = omega arith

-- Five more: the cap takes the oldest two, and the pool takes four more.
abbrev frame : List ℕ
frame = 8 ∷ 9 ∷ 10 ∷ 11 ∷ 12 ∷ []

append_drops :
    let (r, p', b') = append frame pool buffer in
    (r ≡ record { dropped_bytes = 6; pool_exhausted = true })
    × (audio b' ≡ 7 ∷ 8 ∷ 9 ∷ 10 ∷ 11 ∷ 12 ∷ [])
unfolding append SlabQueue.append SlabQueue.consume acquire release
append_drops = (refl, refl)

append-Newest_example :
    let (r, p', b') = append frame pool buffer in
    Newest frame pool buffer r.dropped_bytes p' b'
    × (r.pool_exhausted ≡ false → length (audio b') ≡ min 10 (7 + 5))
    × (b'.cap_bytes ≡ 10)
append-Newest_example = append-Newest frame pool buffer buffer-IsValid
