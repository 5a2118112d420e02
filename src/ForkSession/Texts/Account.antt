-- ===== src/ForkSession/Texts/Account.antt =====
-- Where each text of core/src/fork_session.cpp goes: to the server in order, into the queue, or lost and
-- counted.
use mod_audio_fork.Common.{
  ℕ, suc, ◌+◌, ◌-◌, ◌%◌, ◌^◌, ◌≤◌, ◌≡◌, refl, sym, ◌∙◌, ap, not, leb, Bool, true, false, ◌&&◌, List,
  [], ◌∷◌, ◌++◌, append-nil, append_assoc, if◌then◌else◌, length, length-append, length-drop, add64,
  Text, if_ind, arith,
}
use mod_audio_fork.ForkSession.{ForkSession}
use mod_audio_fork.ForkSession.Ports.{Effect, sent_text, Environment}
use mod_audio_fork.ForkSession.Media.{is_running}
use mod_audio_fork.ForkSession.Outbound.{log}
use mod_audio_fork.ForkSession.Texts.{
  max_pending_texts, drop_texts, queue_text, is_active, deliver_text, flush_texts,
  flush_pending_texts,
}
use mod_audio_fork.ForkSession.Texts.Bound.{queue_text_bounded}

-- The texts that the connection took, oldest first.
abbrev pub delivered : List Effect → List Text
delivered [] = []
delivered (sent_text text true ∷ es) = delivered es ++ (text ∷ [])
delivered (_ ∷ es) = delivered es

-- Texts delivered, waiting and counted as lost.
abbrev pub accounted : ForkSession → ℕ
accounted s = length (delivered s.trace) + length s.pending_texts + s.pending_texts_dropped

queue_text-trace : (text : Text) (s : ForkSession) → (queue_text text s).trace ≡ s.trace
unfolding queue_text
queue_text-trace text s =
    if_ind (λ (t : ForkSession). t.trace ≡ s.trace) (leb max_pending_texts (length s.pending_texts))
      (λ _. refl) (λ _. refl)

-- The sums, over the texts delivered, waiting and lost.
one_lost : (d p n : ℕ) → (d + p + add64 n 1) % 2 ^ 64 ≡ (d + p + n + 1) % 2 ^ 64
one_lost d p n = omega arith

one_queued :
    (d p n d' p' n' : ℕ)
    → d' ≡ d
    → p' ≡ p + 1 - (p + 1 - 64)
    → p ≤ 64
    → n' % 2 ^ 64 ≡ (n + (p + 1 - 64)) % 2 ^ 64
    → (d' + p' + n') % 2 ^ 64 ≡ (d + p + n + 1) % 2 ^ 64
one_queued d p n d' p' n' x y z u = omega arith

one_sent : (d p n d' : ℕ) → d' ≡ d + 1 → (d' + p + n) % 2 ^ 64 ≡ (d + p + n + 1) % 2 ^ 64
one_sent d p n d' x = omega arith

all_flushed :
    (d p n d' n' : ℕ)
    → (d' + n') % 2 ^ 64 ≡ (d + n + p) % 2 ^ 64
    → (d' + 0 + n') % 2 ^ 64 ≡ (d + p + n + 0) % 2 ^ 64
all_flushed d p n d' n' x = omega arith

more_flushed :
    (d d' d'' n n' n'' k : ℕ)
    → (d' + n') % 2 ^ 64 ≡ (d + n + 1) % 2 ^ 64
    → (d'' + n'') % 2 ^ 64 ≡ (d' + n' + k) % 2 ^ 64
    → (d'' + n'') % 2 ^ 64 ≡ (d + n + suc k) % 2 ^ 64
more_flushed d d' d'' n n' n'' k x y = omega arith

module _ (env : Environment) where
  -- `n` texts more are accounted for, and the queue is as long as it may be.
  pub record Accounts (n : ℕ) (s s' : ForkSession) : Type 0 where
    pub total : accounted s' % 2 ^ 64 ≡ (accounted s + n) % 2 ^ 64
    pub bounded : length s'.pending_texts ≤ 64

  -- With at most 64 texts in the queue, a text that reaches the shard in any state is delivered,
  -- queued or counted as lost, once, and the queue stays within 64.
  pub deliver_text-Accounts :
      (text : Text) (s : ForkSession)
      → length s.pending_texts ≤ 64
      → Accounts 1 s (deliver_text env text s)
  unfolding deliver_text
  deliver_text-Accounts text s h =
      if_ind (Accounts 1 s) (not (is_running s.state))
        (λ _. record { total = one_lost d p s.pending_texts_dropped; bounded = h })
        (λ _.
          if_ind (Accounts 1 s) (not (is_active s.state && s.connection)) (λ _. queued)
            (λ _. offered (env.takes_text s.trace text)))
    where
      d : ℕ
      d = length (delivered s.trace)

      p : ℕ
      p = length s.pending_texts

      queued : Accounts 1 s (queue_text text s)
      queued =
          let (kept, bounded, lost) = queue_text_bounded text s h in
          record {
            total =
                one_queued d p s.pending_texts_dropped _ _ _
                  (ap (λ es. length (delivered es)) (queue_text-trace text s))
                  (ap length kept
                    ∙ length-drop (p + 1 - 64) (s.pending_texts ++ (text ∷ []))
                    ∙ ap (λ (k : ℕ). k - (p + 1 - 64)) (length-append s.pending_texts (text ∷ [])))
                  h lost;
            bounded = bounded;
          }

      offered :
          (taken : Bool)
          → Accounts 1 s (
              if taken
              then log (sent_text text taken) s
              else drop_texts 1 (log (sent_text text taken) s))
      offered true = record {
        total =
            one_sent d p s.pending_texts_dropped _ (length-append (delivered s.trace) (text ∷ []));
        bounded = h;
      }
      offered false = record { total = one_lost d p s.pending_texts_dropped; bounded = h }

  record Sends (texts : List Text) (s s' : ForkSession) : Type 0 where
    total :
        (length (delivered s'.trace) + s'.pending_texts_dropped) % 2 ^ 64
        ≡ (length (delivered s.trace) + s.pending_texts_dropped + length texts) % 2 ^ 64
    ordered :
        s.connection ≡ true
        → ((es : List Effect) (t : Text) → env.takes_text es t ≡ true)
        → delivered s'.trace ≡ delivered s.trace ++ texts

  flush_texts-Sends :
      (texts : List Text) (s : ForkSession) → Sends texts s (flush_texts env texts s)
  unfolding flush_texts
  flush_texts-Sends [] s = record {
    total =
        ap (λ (n : ℕ). n % 2 ^ 64)
          (plus_none (length (delivered s.trace) + s.pending_texts_dropped));
    ordered = λ _ _. sym (append-nil (delivered s.trace));
  }
    where
      plus_none : (n : ℕ) → n ≡ n + 0
      plus_none n = omega arith
  flush_texts-Sends (text ∷ texts) s =
      if_ind (Sends (text ∷ texts) s) s.connection
        (λ c. offered (env.takes_text s.trace text) (λ h. h s.trace text) (flush_texts-Sends texts))
        (λ c. lost c (flush_texts-Sends texts (drop_texts 1 s)))
    where
      d : ℕ
      d = length (delivered s.trace)

      n : ℕ
      n = s.pending_texts_dropped

      counted : (d n : ℕ) → (d + add64 n 1) % 2 ^ 64 ≡ (d + n + 1) % 2 ^ 64
      counted d n = omega arith

      taken_one : (d n d' : ℕ) → d' ≡ d + 1 → (d' + n) % 2 ^ 64 ≡ (d + n + 1) % 2 ^ 64
      taken_one d n d' x = omega arith

      lost :
          s.connection ≡ false
          → Sends texts (drop_texts 1 s) (flush_texts env texts (drop_texts 1 s))
          → Sends (text ∷ texts) s (flush_texts env texts (drop_texts 1 s))
      lost c f = record {
        total = more_flushed d d _ n _ _ (length texts) (counted d n) f.total;
        ordered = λ e. absurd (cc (c, e));
      }

      offered :
          (taken : Bool)
          → (((es : List Effect) (t : Text) → env.takes_text es t ≡ true) → taken ≡ true)
          → ((u : ForkSession) → Sends texts u (flush_texts env texts u))
          → Sends (text ∷ texts) s (
              flush_texts env texts (
                if taken
                then log (sent_text text taken) s
                else drop_texts 1 (log (sent_text text taken) s)))
      offered true k ih =
          let f = ih (log (sent_text text true) s) in
          record {
            total =
                more_flushed d _ _ n _ _ (length texts)
                  (taken_one d n _ (length-append (delivered s.trace) (text ∷ []))) f.total;
            ordered = λ c h. f.ordered c h ∙ append_assoc (delivered s.trace) (text ∷ []) texts;
          }
      offered false k ih =
          let f = ih (drop_texts 1 (log (sent_text text false) s)) in
          record {
            total = more_flushed d d _ n _ _ (length texts) (counted d n) f.total;
            ordered = λ c h. absurd (cc (k h));
          }

  -- `FlushPendingTexts` empties the queue; each of its texts is delivered or counted as lost, and a
  -- connection that takes all it is given gets them in their order.
  pub flush_pending_texts-Sends :
      (s : ForkSession)
      → let s' = flush_pending_texts env s in
        (s'.pending_texts ≡ [])
        × Accounts 0 s s'
        × (s.connection ≡ true
            → ((es : List Effect) (t : Text) → env.takes_text es t ≡ true)
            → delivered s'.trace ≡ delivered s.trace ++ s.pending_texts)
  unfolding flush_pending_texts
  flush_pending_texts-Sends s =
      let f = flush_texts-Sends s.pending_texts s in
      (
        refl,
        record {
          total =
              all_flushed (length (delivered s.trace)) (length s.pending_texts)
                s.pending_texts_dropped _ _ f.total;
          bounded = none_left;
        },
        f.ordered,
      )
    where
      none_left : 0 ≤ 64
      none_left = omega arith
