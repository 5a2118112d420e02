-- ===== src/ForkSession/Outbound/Loss.antt =====
-- What a round of `DrainHandoffRing` of core/src/fork_session.cpp drops of the audio.
use mod_audio_fork.Common.{
  ℕ, ◌+◌, ◌%◌, ◌^◌, ◌≤◌, ◌≡◌, refl, sym, ◌∙◌, ap, subst, ◌==◌, ltb, Bool, true, false, ◌||◌, List,
  [], ◌∷◌, ◌++◌, append-nil, append_assoc, length, drop, length-append, length-drop, drop-drop,
  drop-append_le, add64, Bool-cases, inl, inr, arith,
}
use mod_audio_fork.SlabPool.{SlabPool}
use mod_audio_fork.SpscRing.Fifo
use mod_audio_fork.SpscRing.Fifo.{pop_dequeues}
use mod_audio_fork.SendBuffer
use mod_audio_fork.SendBuffer.{SendBuffer, AppendResult}
use mod_audio_fork.SendBuffer.Newest
use mod_audio_fork.SendBuffer.Newest.{Newest, append-Newest, set_cap-Newest}
use mod_audio_fork.SessionState.{SessionState}
use mod_audio_fork.ForkSession.{ForkSession, Tuning}
use mod_audio_fork.ForkSession.Ports.{Effect, sent_binary}
use mod_audio_fork.ForkSession.Outbound.{
  emit_overrun_if_new_episode, degrade_if_new_episode, drain_starved, drain_overrun, drain_round,
}

-- The audio that waits to be sent: in the buffer, and in the ring behind it.
abbrev pub buffered : ForkSession → List ℕ
buffered s = Newest.audio s.buffer

abbrev pub handed : ForkSession → List ℕ
handed s = Fifo.contents s.ring

-- The audio that the connection took, oldest first.
abbrev pub wire : List Effect → List ℕ
wire [] = []
wire (sent_binary bytes true ∷ es) = wire es ++ bytes
wire (_ ∷ es) = wire es

-- What draining the ring leaves as it was.
abbrev pub drain_frame : ForkSession → List ℕ × ℕ × ℕ × ℕ × Bool × SessionState × Tuning
drain_frame s = (
  wire s.trace,
  s.sent_bytes,
  s.media_dropped_bytes,
  s.paused_bytes,
  s.connection,
  s.state,
  s.tuning,
)

-- The pool, the buffer and the ring are valid.
pub record IsValid (s : ForkSession) : Type 0 where
  pub buffer : Newest.IsValid s.pool s.buffer
  pub ring : Fifo.IsValid s.ring

-- From one state to another `gone` bytes of the buffered audio, with `bytes` behind it, were dropped.
pub record Loses (bytes : List ℕ) (s : ForkSession) (gone : ℕ) (s' : ForkSession) : Type 0 where
  pub left : buffered s' ≡ drop gone (buffered s ++ bytes)
  pub within : gone ≤ length (buffered s) + length bytes
  pub valid : Newest.IsValid s'.pool s'.buffer
  pub ring : s'.ring ≡ s.ring
  pub rest : drain_frame s' ≡ drain_frame s
  pub total : s'.buffer_dropped_bytes % 2 ^ 64 ≡ (s.buffer_dropped_bytes + gone) % 2 ^ 64
  pub resume : s'.dropped_since_resume % 2 ^ 64 ≡ (s.dropped_since_resume + gone) % 2 ^ 64

-- A counter of 64 bits, and two additions to it.
add64-count : (t n : ℕ) → add64 t n % 2 ^ 64 ≡ (t + n) % 2 ^ 64
add64-count t n = omega arith

pub count_then :
    (t t' t'' m n : ℕ)
    → t' % 2 ^ 64 ≡ (t + m) % 2 ^ 64
    → t'' % 2 ^ 64 ≡ (t' + n) % 2 ^ 64
    → t'' % 2 ^ 64 ≡ (t + (m + n)) % 2 ^ 64
count_then t t' t'' m n h k = omega arith

pub count_none : (t : ℕ) → t % 2 ^ 64 ≡ (t + 0) % 2 ^ 64
count_none t = omega arith

pub drop_then :
    (g h : ℕ) (xs ys zs : List ℕ)
    → g ≤ length xs + length ys
    → drop h (drop g (xs ++ ys) ++ zs) ≡ drop (g + h) (xs ++ (ys ++ zs))
drop_then g h xs ys zs l =
    ap (drop h) (sym (drop-append_le g (xs ++ ys) zs (omega (arith, length-append xs ys))))
    ∙ drop-drop h g ((xs ++ ys) ++ zs)
    ∙ ap (drop (g + h)) (append_assoc xs ys zs)

pub length-drop_then :
    (g h : ℕ) (xs ys zs ws : List ℕ)
    → ws ≡ drop g (xs ++ ys)
    → g ≤ length xs + length ys
    → h ≤ length ws + length zs
    → g + h ≤ length xs + length (ys ++ zs)
length-drop_then g h xs ys zs ws e l k =
    omega (arith, ap length e, length-drop g (xs ++ ys), length-append xs ys, length-append ys zs)

pub Loses-none : (s : ForkSession) → Newest.IsValid s.pool s.buffer → Loses [] s 0 s
Loses-none s v = record {
  left = sym (append-nil (buffered s));
  within = zero_le _;
  valid = v;
  ring = refl;
  rest = refl;
  total = count_none s.buffer_dropped_bytes;
  resume = count_none s.dropped_since_resume;
}
  where
    zero_le : (n : ℕ) → 0 ≤ n
    zero_le n = omega arith

drain_starved-Loses :
    (result : AppendResult) (s : ForkSession)
    → Newest.IsValid s.pool s.buffer
    → (gone : ℕ) × Loses [] s gone (drain_starved result s)
unfolding drain_starved degrade_if_new_episode
drain_starved-Loses result s v = elim (Bool-cases result.pool_exhausted) [
  | inr t ↦ rw t (0, Loses-none s v)
  | inl t ↦ elim (Bool-cases (s.tuning.emergency_cap_bytes == 0 || s.degraded)) [
    | inl u ↦
        let n = Loses-none s v in
        rw (t, u)
          (
            0,
            record {
              left = n.left;
              within = n.within;
              valid = v;
              ring = refl;
              rest = refl;
              total = add64-count s.buffer_dropped_bytes 0;
              resume = add64-count s.dropped_since_resume 0;
            },
          )
    | inr u ↦
        let cap = s.tuning.emergency_cap_bytes in
        let (newest, _, _) = set_cap-Newest cap s.pool s.buffer v in
        let shed = (SendBuffer.set_cap cap s.pool s.buffer).0 in
        rw (t, u)
          (
            shed,
            record {
              left = newest.left;
              within = newest.within;
              valid = newest.valid;
              ring = refl;
              rest = refl;
              total = add64-count s.buffer_dropped_bytes shed;
              resume = add64-count s.dropped_since_resume shed;
            },
          )
  ]
]

-- `n` bytes are counted as dropped, and nothing else that matters to the audio changes.
record Counts (n : ℕ) (s s' : ForkSession) : Type 0 where
  buffer : s'.buffer ≡ s.buffer
  pool : s'.pool ≡ s.pool
  ring : s'.ring ≡ s.ring
  rest : drain_frame s' ≡ drain_frame s
  total : s'.buffer_dropped_bytes % 2 ^ 64 ≡ (s.buffer_dropped_bytes + n) % 2 ^ 64
  resume : s'.dropped_since_resume % 2 ^ 64 ≡ (s.dropped_since_resume + n) % 2 ^ 64

drain_overrun-Counts :
    (n : ℕ) (x : Bool) (s : ForkSession)
    → Counts n s (drain_overrun (record { dropped_bytes = n; pool_exhausted = x }) s)
unfolding drain_overrun emit_overrun_if_new_episode
drain_overrun-Counts n x s = elim (Bool-cases (ltb 0 n)) [
  | inl t ↦ elim (Bool-cases s.dropping) [
    | inl u ↦
        rw (t, u)
          (record {
            buffer = refl;
            pool = refl;
            ring = refl;
            rest = refl;
            total = add64-count s.buffer_dropped_bytes n;
            resume = add64-count s.dropped_since_resume n;
          })
    | inr u ↦
        rw (t, u)
          (record {
            buffer = refl;
            pool = refl;
            ring = refl;
            rest = refl;
            total = add64-count s.buffer_dropped_bytes n;
            resume = add64-count s.dropped_since_resume n;
          })
  ]
  | inr t ↦ rw t (record {
    buffer = refl;
    pool = refl;
    ring = refl;
    rest = refl;
    total = idle s.buffer_dropped_bytes t;
    resume = idle s.dropped_since_resume t;
  })
]
  where
    idle : (m : ℕ) → ltb 0 n ≡ false → m % 2 ^ 64 ≡ (m + n) % 2 ^ 64
    idle m e = ground arith

pub drain_round-Loses :
    (bytes : List ℕ) (s : ForkSession)
    → Newest.IsValid s.pool s.buffer
    → (gone : ℕ) × Loses bytes s gone (drain_round bytes s)
unfolding drain_round
drain_round-Loses bytes s v =
    let (result, p, b) = SendBuffer.append bytes s.pool s.buffer in
    let (newest, _, _) = append-Newest bytes s.pool s.buffer v in
    let s' : ForkSession = record s {
      pool = p;
      buffer = b;
      pool_starved = result.pool_exhausted;
    } in
    let (shed, l) = drain_starved-Loses result s' newest.valid in
    let c =
      drain_overrun-Counts result.dropped_bytes result.pool_exhausted
        (record (drain_starved result s') {
          buffered_bytes = (drain_starved result s').buffer.queue.size;
        }) in
    (
      result.dropped_bytes + shed,
      record {
        left =
            ap Newest.audio c.buffer
            ∙ l.left
            ∙ ap (λ xs. drop shed (xs ++ [])) newest.left
            ∙ drop_then result.dropped_bytes shed (buffered s) bytes [] newest.within
            ∙ ap (λ xs. drop (result.dropped_bytes + shed) (buffered s ++ xs)) (append-nil bytes);
        within =
            within result.dropped_bytes shed (length (buffered s)) (length bytes)
              (length-drop_then result.dropped_bytes shed (buffered s) bytes [] (Newest.audio b)
                newest.left newest.within l.within)
              (ap length (append-nil bytes));
        valid = both c.pool c.buffer l.valid;
        ring = c.ring ∙ l.ring;
        rest = c.rest ∙ l.rest;
        total = count_swapped s.buffer_dropped_bytes _ _ result.dropped_bytes shed l.total c.total;
        resume =
            count_swapped s.dropped_since_resume _ _ result.dropped_bytes shed l.resume c.resume;
      },
    )
  where
    within :
        (g h m n : ℕ) → g + h ≤ m + length (bytes ++ []) → length (bytes ++ []) ≡ n → g + h ≤ m + n
    within g h m n k e = omega arith

    both :
        {p p' : SlabPool} {b b' : SendBuffer}
        → p' ≡ p
        → b' ≡ b
        → Newest.IsValid p b
        → Newest.IsValid p' b'
    both {p} {p'} {b} {b'} e f h =
        subst (λ q. Newest.IsValid q b') (sym e) (subst (λ c. Newest.IsValid p c) (sym f) h)

    count_swapped :
        (t t' t'' m n : ℕ)
        → t' % 2 ^ 64 ≡ (t + n) % 2 ^ 64
        → t'' % 2 ^ 64 ≡ (t' + m) % 2 ^ 64
        → t'' % 2 ^ 64 ≡ (t + (m + n)) % 2 ^ 64
    count_swapped t t' t'' m n h k = omega arith
