-- ===== src/ForkSession/Inbound/Hand.antt =====
-- What `PumpPlayback` of core/src/fork_session.cpp hands to the media thread.
use mod_audio_fork.Common.{
  ℕ, zero, suc, ◌+◌, ◌-◌, min, ◌<◌, ◌≤◌, ◌≡◌, refl, ◌∙◌, ap, ap₂, subst, ◌⊎◌, inl, inr, ◌==◌, Bool,
  true, false, leb, List, [], ◌∷◌, ◌++◌, append_assoc, if◌then◌else◌, length, take, drop,
  length-drop, length-take, take-append-drop, drop_cong, eq-nil, if_ind, arith,
}
use mod_audio_fork.SlabPool.{SlabPool}
use mod_audio_fork.SlabQueue
use mod_audio_fork.SlabQueue.Peek.{peek_prefix}
use mod_audio_fork.SpscRing
use mod_audio_fork.SpscRing.{SpscRing}
use mod_audio_fork.SpscRing.Fifo
use mod_audio_fork.SpscRing.Fifo.{push_enqueues}
use mod_audio_fork.JitterBuffer
use mod_audio_fork.JitterBuffer.Marks
use mod_audio_fork.JitterBuffer.Marks.{audio, consume-Consumed}
use mod_audio_fork.ForkSession.{Playback}
use mod_audio_fork.ForkSession.Inbound.{hand_on, hand_loop}

-- The playback audio that is not played yet: in the ring, and behind it in the buffer.
abbrev pub unplayed : Playback → List ℕ
unplayed b = Fifo.contents b.ring ++ audio b.buffer

pub record IsValid (p : SlabPool) (b : Playback) : Type 0 where
  pub buffer : Marks.IsValid p b.buffer
  pub ring : Fifo.IsValid b.ring

-- From one state to another audio went from the buffer to the ring, until the buffer was empty or its
-- next piece did not fit.
pub record Hands (handoff_bytes : ℕ) (p : SlabPool) (b : Playback) (p' : SlabPool) (b' : Playback)
    : Type 0 where
  pub kept : unplayed b' ≡ unplayed b
  pub valid : IsValid p' b'
  pub capacity : length b'.ring.storage ≡ length b.ring.storage
  pub stops :
      (audio b'.buffer ≡ [])
      ⊎ (length b'.ring.storage
          < length (Fifo.contents b'.ring) + length (SlabQueue.peek handoff_bytes b'.buffer.queue))

hand_on-Hands :
    (loop : SlabPool → Playback → SlabPool × Playback) (n : ℕ) (chunk : List ℕ) (p : SlabPool)
    (b : Playback)
    → IsValid p b
    → chunk ≡ SlabQueue.peek n b.buffer.queue
    → chunk ≡ take (length chunk) (audio b.buffer)
    → 0 < length chunk
    → ((q : SlabPool) (c : Playback)
        → IsValid q c
        → length (audio c.buffer) < length (audio b.buffer)
        → Hands n q c (loop q c).0 (loop q c).1)
    → Hands n p b (hand_on loop chunk p b).0 (hand_on loop chunk p b).1
hand_on-Hands loop n [] p b v e t l ih = absurd (omega (arith, l))
hand_on-Hands loop n (x ∷ xs) p b v e t l ih =
    by (SpscRing.push (x ∷ xs) b.ring).0 _ (push_enqueues b.ring v.ring (x ∷ xs))
  where
    k : ℕ
    k = length (x ∷ xs)

    by :
        (ok : Bool) (r : SpscRing)
        → Fifo.IsValid r
          × (length r.storage ≡ length b.ring.storage)
          × (ok ≡ leb (length (Fifo.contents b.ring) + k) (length b.ring.storage))
          × (ok ≡ true → Fifo.contents r ≡ Fifo.contents b.ring ++ (x ∷ xs))
          × (ok ≡ false → r ≡ b.ring)
        → let (p', j) = JitterBuffer.consume k p b.buffer in
          let rest = loop p' (record { buffer = j; ring = r }) in
          let out = (if ok then rest else (p, b)) in Hands n p b out.0 out.1
    by false r (rv, size, full, _, _) = record {
      kept = refl;
      valid = v;
      capacity = refl;
      stops = inr (overfull _ _ full);
    }
      where
        overfull :
            (m c : ℕ) → false ≡ leb (m + k) c → c < m + length (SlabQueue.peek n b.buffer.queue)
        overfull m c f = subst (λ (z : ℕ). c < m + z) (ap length e) (ground arith)
    by true r (rv, size, _, queued, _) =
        let a = audio b.buffer in
        let all : k ≤ length a = taken k a (ap length t ∙ length-take k a) in
        let c = consume-Consumed p b.buffer v.buffer k in
        let left : audio (JitterBuffer.consume k p b.buffer).1 ≡ drop k a =
          c.left ∙ drop_cong {n = k} a (least k (length a) all) in
        let h =
          ih (JitterBuffer.consume k p b.buffer).0
            (record { buffer = (JitterBuffer.consume k p b.buffer).1; ring = r })
            (record { buffer = c.valid; ring = rv })
            (shorter k (length a) _ l all (ap length left ∙ length-drop k a)) in
        record {
          kept =
              h.kept
              ∙ ap₂ (λ ys zs. ys ++ zs) (queued refl) left
              ∙ append_assoc (Fifo.contents b.ring) (x ∷ xs) (drop k a)
              ∙ ap (λ ys. Fifo.contents b.ring ++ ys)
                  (ap (λ ys. ys ++ drop k a) t ∙ take-append-drop k a);
          valid = h.valid;
          capacity = h.capacity ∙ size;
          stops = h.stops;
        }
      where
        taken : (m : ℕ) (ys : List ℕ) → m ≡ min m (length ys) → m ≤ length ys
        taken m ys z = omega arith

        least : (m j : ℕ) → m ≤ j → min m j ≡ m
        least m j z = omega arith

        shorter : (m j i : ℕ) → 0 < m → m ≤ j → i ≡ j - m → i < j
        shorter m j i y z u = omega arith

pub hand_loop-Hands :
    (fuel n : ℕ) (p : SlabPool) (b : Playback)
    → IsValid p b
    → 0 < n
    → length (audio b.buffer) < fuel
    → Hands n p b (hand_loop fuel n p b).0 (hand_loop fuel n p b).1
unfolding hand_loop
hand_loop-Hands zero n p b v l h = absurd (omega (arith, h))
hand_loop-Hands (suc fuel) n p b v l h =
    if_ind (λ (o : SlabPool × Playback). Hands n p b o.0 o.1) (b.buffer.queue.size == 0)
      (λ z. record {
        kept = refl;
        valid = v;
        capacity = refl;
        stops = inl (eq-nil (audio b.buffer) (none_left _ _ z v.buffer.holds.sized));
      })
      (λ z.
        let (front, _, shown) = peek_prefix n b.buffer.queue v.buffer.holds in
        hand_on-Hands (hand_loop fuel n) n _ p b v refl front (shown l (some_left _ z))
          (λ q c w m. hand_loop-Hands fuel n q c w l (less m h)))
  where
    none_left : (m j : ℕ) → (m == 0) ≡ true → m ≡ j → j ≡ 0
    none_left m j z e = ground arith

    some_left : (m : ℕ) → (m == 0) ≡ false → 0 < m
    some_left m z = ground arith

    less : {m j : ℕ} → m < j → j < suc fuel → m < fuel
    less y z = omega arith
