-- ===== src/SpscRing/Threads.antt =====
-- One producer and one consumer on the ring of core/include/audiofork/spsc_ring.hpp, interleaved at
-- the accesses to the indices and to the storage: each may work with an index of the other that it
-- loaded before.
use mod_audio_fork.Common.{ℕ, ◌≡◌, true, false, List, [], ◌++◌, ltb, length, add64}
use mod_audio_fork.SpscRing.{SpscRing, free_bytes, pop_count, copy_in, copy_out}

-- Out of `Push`; with the `tail` that it loaded; with its bytes copied in, before `head` is stored.
pub data Producer : Type 0 where
  resting : Producer
  checking : (bytes : List ℕ) (tail : ℕ) → Producer
  publishing : (bytes : List ℕ) → Producer

-- Out of `Pop`; with the `head` that it loaded; with the bytes copied out, before `tail` is stored.
pub data Consumer : Type 0 where
  waiting : Consumer
  reading : (room head : ℕ) → Consumer
  releasing : (out : List ℕ) → Consumer

-- The bytes of the calls of `Push` that returned true, and those that `Pop` returned, oldest first.
pub record System : Type 0 where
  pub ring : SpscRing
  pub producer : Producer
  pub consumer : Consumer
  pub pushed : List ℕ
  pub popped : List ℕ

pub data Step (s : System) : System → Type 0 where
  load_tail :
      (bytes : List ℕ)
      → s.producer ≡ resting
      → Step s (record s { producer = checking bytes s.ring.tail })
  refuse :
      (bytes : List ℕ) (tail : ℕ)
      → s.producer ≡ checking bytes tail
      → ltb (free_bytes tail s.ring) (length bytes) ≡ true
      → Step s (record s { producer = resting })
  fill :
      (bytes : List ℕ) (tail : ℕ)
      → s.producer ≡ checking bytes tail
      → ltb (free_bytes tail s.ring) (length bytes) ≡ false
      → Step s (record s {
        ring = record s.ring { storage = copy_in bytes s.ring.head s.ring };
        producer = publishing bytes;
      })
  store_head :
      (bytes : List ℕ)
      → s.producer ≡ publishing bytes
      → Step s (record s {
        ring = record s.ring { head = add64 s.ring.head (length bytes) };
        producer = resting;
        pushed = s.pushed ++ bytes;
      })
  load_head :
      (room : ℕ) → s.consumer ≡ waiting → Step s (record s { consumer = reading room s.ring.head })
  take_out :
      (room head : ℕ)
      → s.consumer ≡ reading room head
      → Step s (record s {
        consumer = releasing (copy_out s.ring.tail (pop_count room head s.ring) s.ring);
      })
  store_tail :
      (out : List ℕ)
      → s.consumer ≡ releasing out
      → Step s (record s {
        ring = record s.ring { tail = add64 s.ring.tail (length out) };
        consumer = waiting;
        popped = s.popped ++ out;
      })

abbrev pub init : SpscRing → System
init r = record { ring = r; producer = resting; consumer = waiting; pushed = []; popped = [] }

pub data Reach (r : SpscRing) : System → Type 0 where
  start : Reach r (init r)
  later : {s t : System} → Reach r s → Step s t → Reach r t
