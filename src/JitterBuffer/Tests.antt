-- ===== src/JitterBuffer/Tests.antt =====
-- Runs of core/src/jitter_buffer.cpp: five bytes with a mark behind the third.
use mod_audio_fork.Common.{ℕ, ◌-◌, ◌≡◌, refl, false, List, [], ◌∷◌, ◌++◌, take, arith}
use mod_audio_fork.SlabPool.{SlabPool, acquire}
use mod_audio_fork.SlabQueue
use mod_audio_fork.JitterBuffer.{JitterBuffer, append, consume}
use mod_audio_fork.JitterBuffer.Marks.{IsValid}
use mod_audio_fork.JitterBuffer.Weave.{byte, mark, bytes_of, view}
use mod_audio_fork.JitterBuffer.Stream.{consume-pull, append-view}

abbrev pool : SlabPool
pool = record {
  options = record { slab_size_bytes = 4; max_total_bytes = 12 };
  free_slabs = [];
  allocated_bytes = 8;
  leased_slabs = 2;
}

abbrev buffer : JitterBuffer
buffer = record {
  queue = record {
    size = 5;
    chunks =
        record { storage = 0 ∷ 1 ∷ 2 ∷ 3 ∷ []; begin = 1; end = 4 }
        ∷ record { storage = 4 ∷ 5 ∷ 0 ∷ 0 ∷ []; begin = 0; end = 2 }
        ∷ [];
  };
  cap_bytes = 8;
  muted = false;
  written_offset = 6;
  consumed_offset = 1;
  marks = record { offset = 4; name = 65 ∷ [] } ∷ [];
  reached_marks = [];
}

buffer-IsValid : IsValid pool buffer
buffer-IsValid = omega arith

view-buffer : view buffer ≡ byte 1 ∷ byte 2 ∷ byte 3 ∷ mark (65 ∷ []) ∷ byte 4 ∷ byte 5 ∷ []
view-buffer = refl

abbrev frame : List ℕ
frame = 6 ∷ 7 ∷ 8 ∷ 9 ∷ []

-- The cap refuses the last byte.
append_refuses : (append frame pool buffer).0 ≡ 1
unfolding append SlabQueue.append acquire
append_refuses = refl

append-view_example :
    let (refused, p', j') = append frame pool buffer in
    (view j' ≡ view buffer ++ bytes_of (take (4 - refused) frame)) × IsValid p' j'
append-view_example = append-view frame pool buffer buffer-IsValid (omega arith)

consume-pull_example :
    let (p', j') = consume 3 pool buffer in
    (j'.reached_marks ≡ (65 ∷ []) ∷ []) × (view j' ≡ byte 4 ∷ byte 5 ∷ []) × IsValid p' j'
consume-pull_example = consume-pull 3 pool buffer buffer-IsValid
