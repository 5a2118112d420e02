-- ===== src/SpscRing/Tests.antt =====
-- Runs of core/include/audiofork/spsc_ring.hpp: a ring of four bytes whose indices wrap.
use mod_audio_fork.Common.{◌≡◌, refl, true, false, some, [], ◌∷◌, ◌++◌, arith}
use mod_audio_fork.SpscRing.{SpscRing, create, push, copy_in, copy_out}
use mod_audio_fork.SpscRing.Slots.{view}
use mod_audio_fork.SpscRing.Fifo.{IsValid, contents}
use mod_audio_fork.SpscRing.Create.{create_least}
use mod_audio_fork.SpscRing.Threads.{
  System, load_tail, fill, store_head, load_head, take_out, store_tail, Reach, start, later,
}
use mod_audio_fork.SpscRing.Interleaved.{reach_fifo}

-- It holds 1, 2 and 3.
abbrev ring : SpscRing
ring = record { storage = 3 ∷ 0 ∷ 1 ∷ 2 ∷ []; mask = 3; head = 1; tail = 18446744073709551614 }

ring-IsValid : IsValid ring
ring-IsValid = record {
  power = 2;
  bounded = omega arith;
  capacity = refl;
  masked = refl;
  filled = omega arith;
  head_small = omega arith;
  tail_small = omega arith;
}

contents-ring : contents ring ≡ 1 ∷ 2 ∷ 3 ∷ []
unfolding view
contents-ring = refl

push_fits : push (4 ∷ []) ring ≡ (true, record ring { storage = 3 ∷ 4 ∷ 1 ∷ 2 ∷ []; head = 2 })
unfolding push
push_fits = refl

push_refuses : push (4 ∷ 5 ∷ []) ring ≡ (false, ring)
unfolding push
push_refuses = refl

abbrev new_ring : SpscRing
new_ring = record { storage = 0 ∷ 0 ∷ []; mask = 1; head = 0; tail = 0 }

create-new_ring : create 2 ≡ some new_ring
unfolding create
create-new_ring = refl

-- The consumer loads `head` when one byte is there, and works on while a second comes in.
abbrev interleaved : (s : System) × Reach new_ring s
unfolding copy_in copy_out
interleaved = (
  _,
  later
      (later
        (later
          (later
            (later
              (later
                (later (later (later start (load_tail (7 ∷ []) refl)) (fill (7 ∷ []) 0 refl refl))
                  (store_head (7 ∷ []) refl))
                (load_head 8 refl))
              (load_tail (8 ∷ []) refl))
            (fill (8 ∷ []) 0 refl refl))
          (take_out 8 1 refl))
        (store_head (8 ∷ []) refl))
      (store_tail (7 ∷ []) refl),
)

reach_fifo_example :
    (interleaved.0.pushed ≡ interleaved.0.popped ++ contents interleaved.0.ring)
    × IsValid interleaved.0.ring
reach_fifo_example =
    reach_fifo ((create_least 2).1 new_ring create-new_ring).0
      ((create_least 2).1 new_ring create-new_ring).1 interleaved.1

-- The first byte is out, and the second is in the ring.
interleaved_ends : interleaved.0.popped ≡ 7 ∷ []
unfolding interleaved
interleaved_ends = refl
