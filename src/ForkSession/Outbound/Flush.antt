-- ===== src/ForkSession/Outbound/Flush.antt =====
-- What `FlushToConnection` of core/src/fork_session.cpp puts on the wire.
use mod_audio_fork.Common.{
  ℕ, zero, suc, ◌+◌, ◌-◌, ◌%◌, ◌^◌, ◌≤◌, ◌<◌, ◌≡◌, refl, sym, ◌∙◌, ap, ap₂, subst, ◌⊎◌, inl, inr,
  ◌==◌, not, ltb, Bool, true, false, ◌&&◌, List, [], ◌∷◌, ◌++◌, append_assoc, if◌then◌else◌, length,
  take, drop, length-append, length-drop, take-append-drop, eq-nil, add64, Bool-cases, arith,
}
use mod_audio_fork.SlabQueue
use mod_audio_fork.SlabQueue.{SlabQueue}
use mod_audio_fork.SlabQueue.Contents.{contents, Holds}
use mod_audio_fork.SlabQueue.Peek.{peek_prefix}
use mod_audio_fork.SlabQueue.Consume.{consume_drops}
use mod_audio_fork.SendBuffer.Newest
use mod_audio_fork.SpscRing.{SpscRing}
use mod_audio_fork.SessionState.{SessionState}
use mod_audio_fork.ForkSession.{ForkSession, Tuning}
use mod_audio_fork.ForkSession.Ports.{Effect, sent_binary, Environment}
use mod_audio_fork.ForkSession.Outbound.{
  note_buffered, sent_chunk, flush_round, flush_loop, flush_to_connection,
}
use mod_audio_fork.ForkSession.Outbound.Loss.{buffered, wire}

bound : (m m' m'' k b : ℕ) → m' ≡ m + k → k ≤ b → m'' ≤ m' + (b - k) → m'' ≤ m + b
bound m m' m'' k b x y z = omega arith

exact : (m m' m'' k b : ℕ) → m' ≡ m + k → k ≤ b → m'' ≡ m' + (b - k) → m'' ≡ m + b
exact m m' m'' k b x y z = omega arith

count :
    (m m' m'' k a a' a'' : ℕ)
    → m' ≡ m + k
    → a' ≡ add64 a k
    → (a'' + m') % 2 ^ 64 ≡ (a' + m'') % 2 ^ 64
    → (a'' + m) % 2 ^ 64 ≡ (a + m'') % 2 ^ 64
count m m' m'' k a a' a'' x y z = omega arith

split : (m n k : ℕ) → m - (n + k) ≡ m - n - k
split m n k = omega arith

less : (m n k f : ℕ) → m - n < suc f → 0 < k → k ≤ m - n → m - (n + k) < f
less m n k f x y z = omega arith

less_none : (n : ℕ) → n - 0 ≡ n
less_none n = omega arith

-- What a flush leaves as it was.
abbrev pub flush_frame : ForkSession → SpscRing × ℕ × ℕ × ℕ × Bool × SessionState × Tuning
flush_frame s = (
  s.ring, s.buffer_dropped_bytes, s.media_dropped_bytes, s.paused_bytes, s.connection, s.state,
  s.tuning,
)

module _ (env : Environment) where
  -- From one state to another some audio went from the buffer to the wire, at most `budget` bytes.
  pub record Flushed (budget : ℕ) (s s' : ForkSession) : Type 0 where
    pub kept : wire s'.trace ++ buffered s' ≡ wire s.trace ++ buffered s
    pub within : length (wire s'.trace) ≤ length (wire s.trace) + budget
    pub total :
        (s'.sent_bytes + length (wire s.trace)) % 2 ^ 64
        ≡ (s.sent_bytes + length (wire s'.trace)) % 2 ^ 64
    pub valid : Newest.IsValid s'.pool s'.buffer
    pub rest : flush_frame s' ≡ flush_frame s
    pub served :
        ((es : List Effect) (bytes : List ℕ) → env.takes_binary es bytes ≡ true)
        → (buffered s' ≡ []) ⊎ (length (wire s'.trace) ≡ length (wire s.trace) + budget)

  Flushed-stay :
      (budget : ℕ) (s : ForkSession)
      → Newest.IsValid s.pool s.buffer
      → (buffered s ≡ []) ⊎ (budget ≡ 0)
      → Flushed budget s s
  Flushed-stay budget s v h = record {
    kept = refl;
    within = more (length (wire s.trace)) budget;
    total = refl;
    valid = v;
    rest = refl;
    served = λ _. done h;
  }
    where
      more : (m n : ℕ) → m ≤ m + n
      more m n = omega arith

      done :
          (buffered s ≡ []) ⊎ (budget ≡ 0)
          → (buffered s ≡ []) ⊎ (length (wire s.trace) ≡ length (wire s.trace) + budget)
      done (inl e) = inl e
      done (inr e) = inr (plus_none (length (wire s.trace)) budget e)
        where
          plus_none : (m n : ℕ) → n ≡ 0 → m ≡ m + n
          plus_none m n e = omega arith

  Flushed-after :
      (budget : ℕ) (chunk : List ℕ) (s t u : ForkSession)
      → wire t.trace ≡ wire s.trace ++ chunk
      → buffered t ≡ drop (length chunk) (buffered s)
      → chunk ≡ take (length chunk) (buffered s)
      → t.sent_bytes ≡ add64 s.sent_bytes (length chunk)
      → length chunk ≤ budget
      → flush_frame t ≡ flush_frame s
      → Flushed (budget - length chunk) t u
      → Flushed budget s u
  Flushed-after budget chunk s t u e d c n l r f =
      let longer = ap length e ∙ length-append (wire s.trace) chunk in
      record {
        kept =
            f.kept
            ∙ ap₂ (λ xs ys. xs ++ ys) e d
            ∙ append_assoc (wire s.trace) chunk (drop (length chunk) (buffered s))
            ∙ ap (λ xs. wire s.trace ++ xs)
                (ap (λ xs. xs ++ drop (length chunk) (buffered s)) c
                  ∙ take-append-drop (length chunk) (buffered s));
        within =
            bound (length (wire s.trace)) _ (length (wire u.trace)) (length chunk) budget longer l
              f.within;
        total =
            count (length (wire s.trace)) _ (length (wire u.trace)) (length chunk) s.sent_bytes _
              u.sent_bytes longer n f.total;
        valid = f.valid;
        rest = f.rest ∙ r;
        served = λ h. elim (f.served h) [
          | inl x ↦ inl x
          | inr x ↦ inr (
              exact (length (wire s.trace)) _ (length (wire u.trace)) (length chunk) budget longer l
                x)
        ];
      }

  flush_round-Flushed :
      (loop : ℕ → ForkSession → ForkSession) (sent : ℕ) (chunk : List ℕ) (s : ForkSession)
      → Newest.IsValid s.pool s.buffer
      → chunk ≡ take (length chunk) (buffered s)
      → 0 < length chunk
      → length chunk ≤ s.tuning.coalesce_max_bytes - sent
      → ((t : ForkSession)
          → Newest.IsValid t.pool t.buffer
          → t.tuning ≡ s.tuning
          → Flushed
              (t.tuning.coalesce_max_bytes - (sent + length chunk))
              t
              (loop (sent + length chunk) t))
      → Flushed (s.tuning.coalesce_max_bytes - sent) s (flush_round env loop sent chunk s)
  unfolding flush_round
  flush_round-Flushed loop sent [] s v e p l ih = absurd (omega (arith, p))
  flush_round-Flushed loop sent (b ∷ bs) s v e p l ih =
      elim (Bool-cases (env.takes_binary s.trace (b ∷ bs))) [
        | inl t ↦
            (let (gone, _, holds, _) =
                consume_drops (length (b ∷ bs)) s.pool s.buffer.queue v.holds in
              rw t (went gone holds))
        | inr t ↦ rw t (record {
          kept = refl;
          within = more (length (wire s.trace)) (s.tuning.coalesce_max_bytes - sent);
          total = refl;
          valid = v;
          rest = refl;
          served = λ h. absurd (cc (h s.trace (b ∷ bs)));
        })
      ]
    where
      more : (m n : ℕ) → m ≤ m + n
      more m n = omega arith

      -- The session once the chunk is sent.
      after : ForkSession
      after = sent_chunk (b ∷ bs) (record s { trace = sent_binary (b ∷ bs) true ∷ s.trace })

      fits : (m n k c : ℕ) → m ≡ n → n ≡ k - length (b ∷ bs) → k ≤ c → m ≤ c
      fits m n k c x y z = omega arith

      went :
          (contents (SlabQueue.consume (length (b ∷ bs)) s.pool s.buffer.queue).1.chunks
            ≡ drop (length (b ∷ bs)) (buffered s))
          → Holds after.pool after.buffer.queue
          → Flushed (s.tuning.coalesce_max_bytes - sent) s (loop (sent + length (b ∷ bs)) after)
      went gone holds =
          Flushed-after (s.tuning.coalesce_max_bytes - sent) (b ∷ bs) s after _ refl gone e refl l
            refl
            (subst (λ (n : ℕ). Flushed n after (loop (sent + length (b ∷ bs)) after))
              (split s.tuning.coalesce_max_bytes sent (length (b ∷ bs)))
              (ih after
                (record {
                  holds = holds;
                  capped =
                      fits _ _ (length (buffered s)) _ (ap length gone)
                        (length-drop (length (b ∷ bs)) (buffered s)) v.capped;
                })
                refl))

  flush_loop-Flushed :
      (fuel sent : ℕ) (s : ForkSession)
      → Newest.IsValid s.pool s.buffer
      → s.tuning.coalesce_max_bytes - sent < fuel
      → Flushed (s.tuning.coalesce_max_bytes - sent) s (flush_loop env fuel sent s)
  unfolding flush_loop
  flush_loop-Flushed zero sent s v h = absurd (omega (arith, h))
  flush_loop-Flushed (suc fuel) sent s v h =
      elim (Bool-cases (not (s.buffer.queue.size == 0) && ltb sent s.tuning.coalesce_max_bytes)) [
        | inr t ↦ rw t (noted (Flushed-stay (s.tuning.coalesce_max_bytes - sent) s v (idle t)))
        | inl t ↦ rw t (
            round t (peek_prefix (s.tuning.coalesce_max_bytes - sent) s.buffer.queue v.holds)
              (flush_loop-Flushed fuel))
      ]
    where
      c : ℕ
      c = s.tuning.coalesce_max_bytes

      noted : {n : ℕ} → Flushed n s s → Flushed n s (note_buffered s)
      noted f = record {
        kept = f.kept;
        within = f.within;
        total = f.total;
        valid = f.valid;
        rest = f.rest;
        served = f.served;
      }

      idle :
          (not (s.buffer.queue.size == 0) && ltb sent c) ≡ false
          → (buffered s ≡ []) ⊎ (c - sent ≡ 0)
      idle t = elim (Bool-cases (s.buffer.queue.size == 0)) [
        | inl u ↦ inl (eq-nil (buffered s) (none_left u v.holds.sized))
        | inr u ↦ inr (spent (s.buffer.queue.size) c t u)
      ]
        where
          none_left : {m n : ℕ} → (m == 0) ≡ true → m ≡ n → n ≡ 0
          none_left a e = ground arith

          spent : (m n : ℕ) → (not (m == 0) && ltb sent n) ≡ false → (m == 0) ≡ false → n - sent ≡ 0
          spent m n a b = ground arith

      round :
          (not (s.buffer.queue.size == 0) && ltb sent c) ≡ true
          → (let shown = SlabQueue.peek (c - sent) s.buffer.queue in
              (shown ≡ take (length shown) (buffered s))
              × (length shown ≤ c - sent)
              × (0 < c - sent → 0 < s.buffer.queue.size → 0 < length shown))
          → ((next : ℕ) (u : ForkSession)
              → Newest.IsValid u.pool u.buffer
              → u.tuning.coalesce_max_bytes - next < fuel
              → Flushed (u.tuning.coalesce_max_bytes - next) u (flush_loop env fuel next u))
          → Flushed (c - sent) s (
              flush_round env
                (flush_loop env fuel)
                sent
                (SlabQueue.peek (c - sent) s.buffer.queue)
                s)
      round t (shown, short, some_shown) ih =
          let n = length (SlabQueue.peek (c - sent) s.buffer.queue) in
          let (a, b) = both s.buffer.queue.size c t in
          flush_round-Flushed (flush_loop env fuel) sent _ s v shown (some_shown b a) short
            (λ u w same. ih (sent + n) u w (
              subst (λ x. x.coalesce_max_bytes - (sent + n) < fuel) (sym same)
                (less c sent n fuel h (some_shown b a) short)))
        where
          both : (m n : ℕ) → (not (m == 0) && ltb sent n) ≡ true → (0 < m) × (0 < n - sent)
          both m n e = ground arith

  pub flush_unconnected : (s : ForkSession) → s.connection ≡ false → flush_to_connection env s ≡ s
  unfolding flush_to_connection
  flush_unconnected s c =
      ap (λ b. if b then flush_loop env (suc s.tuning.coalesce_max_bytes) 0 s else s) c

  -- With a connection and a valid pool and buffer, `FlushToConnection` sends the oldest audio, in
  -- its order and at most `coalesce_max_bytes` of it, counts it, and loses none: what the
  -- connection refuses stays. If the connection takes all it is given, it stops only when nothing
  -- is left or that many bytes went.
  pub flush_to_connection-Flushed :
      (s : ForkSession)
      → Newest.IsValid s.pool s.buffer
      → s.connection ≡ true
      → Flushed s.tuning.coalesce_max_bytes s (flush_to_connection env s)
  unfolding flush_to_connection
  flush_to_connection-Flushed s v h =
      let n = s.tuning.coalesce_max_bytes in
      let run = flush_loop env (suc n) 0 s in
      subst (Flushed n s) (sym (ap (λ b. if b then run else s) h)) (
        subst (λ (k : ℕ). Flushed k s run) (less_none n)
          (flush_loop-Flushed (suc n) 0 s v (omega (arith, less_none n))))
