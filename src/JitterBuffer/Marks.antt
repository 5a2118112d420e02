-- ===== src/JitterBuffer/Marks.antt =====
-- What holds of a buffer of core/src/jitter_buffer.cpp between two calls: its marks lie in the audio
-- that is still to be consumed, in the order of the stream.
use mod_audio_fork.Common.{
  ℕ, ◌+◌, ◌-◌, min, ◌≤◌, ◌<◌, ◌^◌, ◌≡◌, refl, sym, ◌∙◌, ap, inl, inr, true, leb, List, [], ◌∷◌,
  ◌++◌, append-nil, append_assoc, length, drop, length-drop, drop-min, if◌then◌else◌, add64, Text,
  Bool-cases, arith,
}
use mod_audio_fork.SlabPool.{SlabPool}
use mod_audio_fork.SlabQueue
use mod_audio_fork.SlabQueue.{SlabQueue}
use mod_audio_fork.SlabQueue.Contents.{contents, Holds, Keeps}
use mod_audio_fork.SlabQueue.Consume.{consume_drops}
use mod_audio_fork.SlabQueue.Clear.{clear_releases}
use mod_audio_fork.JitterBuffer.{Mark, JitterBuffer, clear, add_mark, reach, consume}

abbrev pub audio : JitterBuffer → List ℕ
audio j = contents j.queue.chunks

-- The offsets rise, from `lo` at least to `hi` at most.
abbrev pub Ascending : ℕ → ℕ → List Mark → Type 0
Ascending lo hi [] = Unit {0}
Ascending lo hi (m ∷ ms) = (lo ≤ m.offset) × (m.offset ≤ hi) × Ascending m.offset hi ms

pub Ascending-mono :
    (lo hi hi' : ℕ) (ms : List Mark) → hi ≤ hi' → Ascending lo hi ms → Ascending lo hi' ms
Ascending-mono lo hi hi' [] l h = tt
Ascending-mono lo hi hi' (m ∷ ms) l h = (h.0, omega arith, Ascending-mono m.offset hi hi' ms l h.2)

pub Ascending-lower :
    (lo lo' hi : ℕ) (ms : List Mark) → lo' ≤ lo → Ascending lo hi ms → Ascending lo' hi ms
Ascending-lower lo lo' hi [] l h = tt
Ascending-lower lo lo' hi (m ∷ ms) l h = (omega arith, h.1, h.2)

pub Ascending-end :
    (lo hi : ℕ) (name : Text) (ms : List Mark)
    → lo ≤ hi
    → Ascending lo hi ms
    → Ascending lo hi (ms ++ (record { offset = hi; name = name } ∷ []))
Ascending-end lo hi name [] l h = (l, omega arith, tt)
Ascending-end lo hi name (m ∷ ms) l h = (h.0, h.1, Ascending-end m.offset hi name ms h.1 h.2)

-- The names of the marks at or before a position, and the marks behind it.
abbrev pub due : ℕ → List Mark → List Text
due c [] = []
due c (m ∷ ms) = let rest = due c ms in if leb m.offset c then m.name ∷ rest else rest

abbrev pub ahead : ℕ → List Mark → List Mark
ahead c [] = []
ahead c (m ∷ ms) = let rest = ahead c ms in if leb m.offset c then rest else m ∷ rest

pub none_due :
    (c lo hi : ℕ) (ms : List Mark)
    → c < lo
    → Ascending lo hi ms
    → (due c ms ≡ []) × (ahead c ms ≡ ms)
none_due c lo hi [] l h = (refl, refl)
none_due c lo hi (m ∷ ms) l h = ground (arith, none_due c m.offset hi ms (omega arith) h.2)

ahead-Ascending :
    (c lo hi : ℕ) (ms : List Mark) → Ascending lo hi ms → Ascending (c + 1) hi (ahead c ms)
ahead-Ascending c lo hi [] h = tt
ahead-Ascending c lo hi (m ∷ ms) h = elim (Bool-cases (leb m.offset c)) [
  | inl t ↦ rw t (ahead-Ascending c m.offset hi ms h.2)
  | inr t ↦
      let (_, whole) = none_due c m.offset hi ms (ground arith) h.2 in
      rw (t, whole) (ground arith, h.1, h.2)
]

-- The loop stops at the first mark behind the position, and misses none before it.
pub reach-due :
    (c lo hi : ℕ) (ms : List Mark) (reached : List Text)
    → Ascending lo hi ms
    → reach c ms reached ≡ (ahead c ms, reached ++ due c ms)
unfolding reach
reach-due c lo hi [] reached h = ap (λ x. ([], x)) (sym (append-nil reached))
reach-due c lo hi (m ∷ ms) reached h = elim (Bool-cases (leb m.offset c)) [
  | inl t ↦ rw t (
      reach-due c m.offset hi ms (reached ++ (m.name ∷ [])) h.2
      ∙ ap (λ x. (ahead c ms, x)) (append_assoc reached (m.name ∷ []) (due c ms)))
  | inr t ↦
      let (nothing, whole) = none_due c m.offset hi ms (ground arith) h.2 in
      rw (t, whole, nothing, append-nil) refl
]

pub record IsValid (p : SlabPool) (j : JitterBuffer) : Type 0 where
  pub holds : Holds p j.queue
  pub capped : length (audio j) ≤ j.cap_bytes
  pub counted : j.consumed_offset + length (audio j) ≡ j.written_offset
  pub small : j.written_offset < 2 ^ 64
  pub ordered : Ascending (j.consumed_offset + 1) j.written_offset j.marks

-- What `Consume` leaves when `k` bytes went.
pub record Consumed (k : ℕ) (p : SlabPool) (j : JitterBuffer) (p' : SlabPool) (j' : JitterBuffer)
    : Type 0 where
  pub left : audio j' ≡ drop k (audio j)
  pub moved : j'.consumed_offset ≡ j.consumed_offset + k
  pub marks : j'.marks ≡ ahead (j.consumed_offset + k) j.marks
  pub reached : j'.reached_marks ≡ j.reached_marks ++ due (j.consumed_offset + k) j.marks
  pub valid : IsValid p' j'
  pub keeps : Keeps p p' j.queue.chunks j'.queue.chunks

module _ (p : SlabPool) (j : JitterBuffer) (v : IsValid p j) where
  open j use {queue, consumed_offset, written_offset, marks, reached_marks}

  -- `Consume` takes the oldest bytes, as many as asked for or all; the marks up to the new position
  -- are reached, in their order, and the others stay.
  pub consume-Consumed :
      (n : ℕ) → let (p', j') = consume n p j in Consumed (min n (length (audio j))) p j p' j'
  unfolding consume
  consume-Consumed n =
      let (left, size, holds, keeps) = consume_drops n p queue v.holds in
      let k = min n (length (audio j)) in
      let e : add64 consumed_offset (queue.size - (SlabQueue.consume n p queue).1.size)
          ≡ consumed_offset + k =
        omega (arith, size, v.holds.sized, v.counted, v.small) in
      let left' : contents (SlabQueue.consume n p queue).1.chunks ≡ drop k (audio j) =
        left ∙ sym (drop-min n (audio j) refl) in
      rw
        (
          e,
          reach-due (consumed_offset + k) (consumed_offset + 1) written_offset marks reached_marks
              v.ordered,
        )
        (record {
          left = left';
          moved = refl;
          marks = refl;
          reached = refl;
          valid = record {
            holds = holds;
            capped = omega (arith, ap length left', length-drop k (audio j), v.capped);
            counted = omega (arith, ap length left', length-drop k (audio j), v.counted);
            small = v.small;
            ordered =
                ahead-Ascending (consumed_offset + k) (consumed_offset + 1) written_offset marks
                  v.ordered;
          };
          keeps = keeps;
        })

  -- A barge-in drops all the audio and all the marks that it had not reached, and mutes.
  pub clear-IsValid :
      let (p', j') = clear p j in
      IsValid p' j'
      × (audio j' ≡ [])
      × (j'.marks ≡ [])
      × (j'.muted ≡ true)
      × (j'.reached_marks ≡ reached_marks)
      × Keeps p p' queue.chunks []
  unfolding clear
  clear-IsValid =
      let (e, holds, keeps) = clear_releases p queue v.holds in
      let silent : contents (SlabQueue.clear p queue).1.chunks ≡ [] =
        ap (λ q. contents q.chunks) e in
      (
        record {
          holds = holds;
          capped = omega (arith, ap length silent);
          counted = omega (arith, ap length silent);
          small = v.small;
          ordered = tt;
        },
        silent,
        refl,
        refl,
        refl,
        keeps,
      )

  pub add_mark-IsValid : (name : Text) → IsValid p (add_mark name j)
  unfolding add_mark
  add_mark-IsValid name = elim (Bool-cases (leb written_offset consumed_offset)) [
    | inl t ↦
        rw (t, add_mark)
          (record {
            holds = v.holds;
            capped = v.capped;
            counted = v.counted;
            small = v.small;
            ordered = v.ordered;
          })
    | inr t ↦
        rw (t, add_mark)
          (record {
            holds = v.holds;
            capped = v.capped;
            counted = v.counted;
            small = v.small;
            ordered =
                Ascending-end (consumed_offset + 1) written_offset name marks (ground arith)
                  v.ordered;
          })
  ]
