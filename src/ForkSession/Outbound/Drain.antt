-- ===== src/ForkSession/Outbound/Drain.antt =====
-- What `DrainHandoffRing` of core/src/fork_session.cpp does to the audio: the newest is kept, and
-- every byte that is not is counted.
use mod_audio_fork.Common.{
  ℕ, zero, suc, ◌+◌, ◌%◌, ◌^◌, ◌≤◌, ◌<◌, ◌≡◌, refl, sym, ◌∙◌, ap, ap₂, subst, List, [], ◌∷◌, ◌++◌,
  append-nil, length, take, drop, length-append, take-append-drop, arith,
}
use mod_audio_fork.SpscRing
use mod_audio_fork.SpscRing.{SpscRing}
use mod_audio_fork.SpscRing.Fifo
use mod_audio_fork.SpscRing.Fifo.{pop_dequeues}
use mod_audio_fork.SpscRing.Slots.{length-view}
use Prim.Native.Nat.{bit_and}
use mod_audio_fork.ForkSession.{ForkSession}
use mod_audio_fork.ForkSession.Outbound.{
  drain_chunk_bytes, drain_round, drain_next, drain_loop, drain_handoff_ring,
}
use mod_audio_fork.ForkSession.Outbound.Loss.{
  buffered, handed, drain_frame, IsValid, drain_round-Loses, count_then, count_none, drop_then,
  length-drop_then,
}

-- The ring is empty, and of the audio that waited `gone` bytes, the oldest, were dropped.
pub record Drained (s : ForkSession) (gone : ℕ) (s' : ForkSession) : Type 0 where
  pub left : buffered s' ≡ drop gone (buffered s ++ handed s)
  pub emptied : handed s' ≡ []
  pub within : gone ≤ length (buffered s) + length (handed s)
  pub valid : IsValid s'
  pub rest : drain_frame s' ≡ drain_frame s
  pub total : s'.buffer_dropped_bytes % 2 ^ 64 ≡ (s.buffer_dropped_bytes + gone) % 2 ^ 64
  pub resume : s'.dropped_since_resume % 2 ^ 64 ≡ (s.dropped_since_resume + gone) % 2 ^ 64

-- What `Pop` gave: the front of what the ring held.
record Popped (bytes : List ℕ) (r r' : SpscRing) : Type 0 where
  whole : Fifo.contents r ≡ bytes ++ Fifo.contents r'
  ring : Fifo.IsValid r'
  some_left : length bytes ≡ 0 → Fifo.contents r' ≡ []

drain_next-Drained :
    (loop : ForkSession → ForkSession) (bytes : List ℕ) (s : ForkSession) (r : SpscRing)
    → IsValid s
    → Popped bytes s.ring r
    → ((t : ForkSession)
        → IsValid t
        → length (handed t) < length (handed s)
        → (gone : ℕ) × Drained t gone (loop t))
    → (gone : ℕ) × Drained s gone (drain_next loop bytes (record s { ring = r }))
drain_next-Drained loop [] s r v p ih =
    let nothing : Fifo.contents r ≡ [] = p.some_left refl in
    (
      0,
      record {
        left =
            sym (append-nil (buffered s)) ∙ ap (λ xs. buffered s ++ xs) (sym (p.whole ∙ nothing));
        emptied = nothing;
        within = zero_le _;
        valid = record { buffer = v.buffer; ring = p.ring };
        rest = refl;
        total = count_none s.buffer_dropped_bytes;
        resume = count_none s.dropped_since_resume;
      },
    )
  where
    zero_le : (n : ℕ) → 0 ≤ n
    zero_le n = omega arith
drain_next-Drained loop (b ∷ bs) s r v p ih =
    let (g, l) = drain_round-Loses (b ∷ bs) (record s { ring = r }) v.buffer in
    let s' = drain_round (b ∷ bs) (record s { ring = r }) in
    let rest : Fifo.contents s'.ring ≡ Fifo.contents r = ap Fifo.contents l.ring in
    let (h, d) =
      ih s' (record { buffer = l.valid; ring = subst Fifo.IsValid (sym l.ring) p.ring })
        (shorter (ap length rest) (ap length p.whole ∙ length-append (b ∷ bs) (Fifo.contents r))) in
    (
      g + h,
      record {
        left =
            d.left
            ∙ ap₂ (λ xs ys. drop h (xs ++ ys)) l.left rest
            ∙ drop_then g h (buffered s) (b ∷ bs) (Fifo.contents r) l.within
            ∙ ap (λ xs. drop (g + h) (buffered s ++ xs)) (sym p.whole);
        emptied = d.emptied;
        within =
            subst (λ (n : ℕ). g + h ≤ length (buffered s) + n) (ap length (sym p.whole))
              (length-drop_then g h (buffered s) (b ∷ bs) (Fifo.contents r) (buffered s') l.left
                l.within
                (subst (λ (n : ℕ). h ≤ length (buffered s') + n) (ap length rest) d.within));
        valid = d.valid;
        rest = d.rest ∙ l.rest;
        total = count_then s.buffer_dropped_bytes _ _ g h l.total d.total;
        resume = count_then s.dropped_since_resume _ _ g h l.resume d.resume;
      },
    )
  where
    shorter : {m n k : ℕ} → m ≡ n → k ≡ suc (length bs) + n → m < k
    shorter e f = omega arith

drain_loop-Drained :
    (fuel : ℕ) (s : ForkSession)
    → IsValid s
    → length (handed s) < fuel
    → (gone : ℕ) × Drained s gone (drain_loop fuel s)
unfolding drain_loop
drain_loop-Drained zero s v h = absurd (omega (arith, h))
drain_loop-Drained (suc fuel) s v h =
    let (ring, _, front, back) = pop_dequeues s.ring v.ring drain_chunk_bytes in
    drain_next-Drained (drain_loop fuel) _ s _ v
      (record {
        whole =
            sym (take-append-drop drain_chunk_bytes (handed s))
            ∙ sym (ap₂ (λ xs ys. xs ++ ys) front back);
        ring = ring;
        some_left = λ e. back ∙ nothing (handed s) (ap length (sym front) ∙ e);
      })
      (λ t w l. drain_loop-Drained fuel t w (less l h))
  where
    less : {m n : ℕ} → m < n → n < suc fuel → m < fuel
    less l k = omega arith

    nothing :
        (xs : List ℕ) → length (take drain_chunk_bytes xs) ≡ 0 → drop drain_chunk_bytes xs ≡ []
    nothing [] e = refl
    nothing (x ∷ xs) e = absurd (omega arith)

-- With a valid pool, buffer and ring, `DrainHandoffRing` empties the ring into the buffer; of the
-- audio that waited in both, the newest is kept, and the bytes dropped are counted, each once, in
-- the total and since the last resume (counters of 64 bits).
pub drain_handoff_ring-Drained :
    (s : ForkSession) → IsValid s → (gone : ℕ) × Drained s gone (drain_handoff_ring s)
unfolding drain_handoff_ring
drain_handoff_ring-Drained s v =
    drain_loop-Drained (suc (SpscRing.size s.ring)) s v
      (fits (length-view (bit_and s.ring.tail s.ring.mask) (SpscRing.size s.ring) s.ring.storage))
  where
    fits : {m n : ℕ} → m ≡ n → m < suc n
    fits e = omega arith
