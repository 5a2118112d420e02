-- ===== src/ForkSession/Outbound/Account.antt =====
-- The outbound audio of core/src/fork_session.cpp over any sequence of frames pushed, rings drained and
-- flushes: where each byte has gone.
use mod_audio_fork.Common.{
  ℕ, ◌+◌, ◌-◌, ◌%◌, ◌^◌, ◌≤◌, ◌≡◌, refl, sym, ◌∙◌, ap, subst, not, Bool, true, false, List, [], ◌∷◌,
  ◌++◌, if◌then◌else◌, length, length-append, length-drop, add64, Bool-cases, inl, inr, arith,
}
use mod_audio_fork.SpscRing
use mod_audio_fork.SpscRing.{SpscRing}
use mod_audio_fork.SpscRing.Fifo
use mod_audio_fork.SpscRing.Fifo.{push_enqueues}
use mod_audio_fork.ForkSession.{ForkSession}
use mod_audio_fork.ForkSession.Ports.{Environment}
use mod_audio_fork.ForkSession.Media.{is_running, push_audio}
use mod_audio_fork.ForkSession.Outbound.{drain_handoff_ring, flush_to_connection}
use mod_audio_fork.ForkSession.Outbound.Loss.{IsValid, wire, buffered, handed}
use mod_audio_fork.ForkSession.Outbound.Drain.{drain_handoff_ring-Drained}
use mod_audio_fork.ForkSession.Outbound.Flush.{
  Flushed, flush_unconnected, flush_to_connection-Flushed,
}

pub data Move : Type 0 where
  push : (pcm : List ℕ) → Move
  drain flush : Move

module _ (env : Environment) where
  abbrev pub move : ForkSession → Move → ForkSession
  move s (push pcm) = (push_audio pcm s).1
  move s drain = drain_handoff_ring s
  move s flush = flush_to_connection env s

  abbrev pub moves : ForkSession → List Move → ForkSession
  moves s [] = s
  moves s (m ∷ ms) = moves (move s m) ms

abbrev pub pushed_by : Move → ℕ
pushed_by (push pcm) = length pcm
pushed_by _ = 0

abbrev pub pushed : List Move → ℕ
pushed [] = 0
pushed (m ∷ ms) = pushed_by m + pushed ms

-- Bytes sent, waiting in the buffer and in the ring, and counted as dropped from the buffer, refused by
-- the ring, and pushed while paused.
abbrev pub accounted : ForkSession → ℕ
accounted s =
    length (wire s.trace)
    + length (buffered s)
    + length (handed s)
    + s.buffer_dropped_bytes
    + s.media_dropped_bytes
    + s.paused_bytes

pub record Accounts (n : ℕ) (s s' : ForkSession) : Type 0 where
  pub valid : IsValid s'
  pub running : is_running s'.state ≡ true
  pub total : accounted s' % 2 ^ 64 ≡ (accounted s + n) % 2 ^ 64
  pub sent :
      (s'.sent_bytes + length (wire s.trace)) % 2 ^ 64
      ≡ (s.sent_bytes + length (wire s'.trace)) % 2 ^ 64

-- The sums, over the six counts in the order of `accounted`.
moved_on :
    (w b h d m p n h' : ℕ)
    → h' ≡ h + n
    → (w + b + h' + d + m + p) % 2 ^ 64 ≡ (w + b + h + d + m + p + n) % 2 ^ 64
moved_on w b h d m p n h' e = omega arith

refused :
    (w b h d m p n : ℕ)
    → (w + b + h + d + add64 m n + p) % 2 ^ 64 ≡ (w + b + h + d + m + p + n) % 2 ^ 64
refused w b h d m p n = omega arith

silenced :
    (w b h d m p n : ℕ)
    → (w + b + h + d + m + add64 p n) % 2 ^ 64 ≡ (w + b + h + d + m + p + n) % 2 ^ 64
silenced w b h d m p n = omega arith

drained :
    (w b h d m p gone w' b' h' d' m' p' : ℕ)
    → b' ≡ b + h - gone
    → gone ≤ b + h
    → h' ≡ 0
    → d' % 2 ^ 64 ≡ (d + gone) % 2 ^ 64
    → (w' ≡ w) × (m' ≡ m) × (p' ≡ p)
    → (w' + b' + h' + d' + m' + p') % 2 ^ 64 ≡ (w + b + h + d + m + p + 0) % 2 ^ 64
drained w b h d m p gone w' b' h' d' m' p' x y z u e = omega arith

flushed :
    (w b h d m p w' b' h' d' m' p' : ℕ)
    → w' + b' ≡ w + b
    → (h' ≡ h) × (d' ≡ d) × (m' ≡ m) × (p' ≡ p)
    → (w' + b' + h' + d' + m' + p') % 2 ^ 64 ≡ (w + b + h + d + m + p + 0) % 2 ^ 64
flushed w b h d m p w' b' h' d' m' p' x e = omega arith

sent_same : (a a' w w' : ℕ) → a' ≡ a → w' ≡ w → (a' + w) % 2 ^ 64 ≡ (a + w') % 2 ^ 64
sent_same a a' w w' x y = omega arith

push-Accounts :
    (pcm : List ℕ) (s : ForkSession)
    → IsValid s
    → is_running s.state ≡ true
    → Accounts (length pcm) s (push_audio pcm s).1
unfolding push_audio
push-Accounts pcm s v r =
    let (ring, _, _, queued, _) = push_enqueues s.ring v.ring pcm in
    subst
      (λ running.
        Accounts (length pcm) s
          (if not running then (false, s) else pushed_on s.paused (SpscRing.push pcm s.ring)).1)
      (sym r) (by s.paused (SpscRing.push pcm s.ring).0 _ ring queued)
  where
    pushed_on : Bool → Bool × SpscRing → Bool × ForkSession
    pushed_on paused (ok, ring) =
        if paused
        then (true, record s { paused_bytes = add64 s.paused_bytes (length pcm) })
        else if ok
        then (true, record s { ring = ring })
        else (false, record s { media_dropped_bytes = add64 s.media_dropped_bytes (length pcm) })

    w : ℕ
    w = length (wire s.trace)

    b : ℕ
    b = length (buffered s)

    h : ℕ
    h = length (handed s)

    by :
        (paused ok : Bool) (ring : SpscRing)
        → Fifo.IsValid ring
        → (ok ≡ true → Fifo.contents ring ≡ handed s ++ pcm)
        → Accounts (length pcm) s (pushed_on paused (ok, ring)).1
    by true ok ring k q = record {
      valid = record { buffer = v.buffer; ring = v.ring };
      running = r;
      total =
          silenced w b h s.buffer_dropped_bytes s.media_dropped_bytes s.paused_bytes (length pcm);
      sent = refl;
    }
    by false true ring k q = record {
      valid = record { buffer = v.buffer; ring = k };
      running = r;
      total =
          moved_on w b h s.buffer_dropped_bytes s.media_dropped_bytes s.paused_bytes (length pcm) _
            (ap length (q refl) ∙ length-append (handed s) pcm);
      sent = refl;
    }
    by false false ring k q = record {
      valid = record { buffer = v.buffer; ring = v.ring };
      running = r;
      total =
          refused w b h s.buffer_dropped_bytes s.media_dropped_bytes s.paused_bytes (length pcm);
      sent = refl;
    }

drain-Accounts :
    (s : ForkSession) → IsValid s → is_running s.state ≡ true → Accounts 0 s (drain_handoff_ring s)
drain-Accounts s v r =
    let (gone, d) = drain_handoff_ring-Drained s v in
    let wired = ap (λ f. f.0) d.rest in
    record {
      valid = d.valid;
      running = ap (λ f. is_running f.5) d.rest ∙ r;
      total =
          drained (length (wire s.trace)) (length (buffered s)) (length (handed s))
            s.buffer_dropped_bytes s.media_dropped_bytes s.paused_bytes gone _ _ _ _ _ _
            (ap length d.left
              ∙ length-drop gone (buffered s ++ handed s)
              ∙ ap (λ (n : ℕ). n - gone) (length-append (buffered s) (handed s)))
            d.within (ap length d.emptied) d.total
            (ap length wired, ap (λ f. f.2) d.rest, ap (λ f. f.3) d.rest);
      sent =
          sent_same s.sent_bytes _ (length (wire s.trace)) _ (ap (λ f. f.1) d.rest)
            (ap length wired);
    }

flush-Accounts :
    (env : Environment) (s : ForkSession)
    → IsValid s
    → is_running s.state ≡ true
    → Accounts 0 s (flush_to_connection env s)
flush-Accounts env s v r = elim (Bool-cases s.connection) [
  | inl c ↦ after (flush_to_connection-Flushed env s v.buffer c)
  | inr c ↦ subst (Accounts 0 s) (sym (flush_unconnected env s c)) (record {
    valid = v;
    running = r;
    total = flushed _ _ _ _ _ _ _ _ _ _ _ _ refl (refl, refl, refl, refl);
    sent = refl;
  })
]
  where
    run : ForkSession
    run = flush_to_connection env s

    after : Flushed env s.tuning.coalesce_max_bytes s run → Accounts 0 s run
    after f = record {
      valid = record {
        buffer = f.valid;
        ring = subst Fifo.IsValid (sym (ap (λ x. x.0) f.rest)) v.ring;
      };
      running = ap (λ x. is_running x.5) f.rest ∙ r;
      total =
          flushed (length (wire s.trace)) (length (buffered s)) (length (handed s))
            s.buffer_dropped_bytes s.media_dropped_bytes s.paused_bytes _ _ _ _ _ _
            (sym (length-append (wire run.trace) (buffered run))
              ∙ ap length f.kept
              ∙ length-append (wire s.trace) (buffered s))
            (
              ap (λ x. length (Fifo.contents x.0)) f.rest,
              ap (λ x. x.1) f.rest,
              ap (λ x. x.2) f.rest,
              ap (λ x. x.3) f.rest,
            );
      sent = f.total;
    }

total_then :
    (a a' a'' m n : ℕ)
    → a' % 2 ^ 64 ≡ (a + m) % 2 ^ 64
    → a'' % 2 ^ 64 ≡ (a' + n) % 2 ^ 64
    → a'' % 2 ^ 64 ≡ (a + (m + n)) % 2 ^ 64
total_then a a' a'' m n x y = omega arith

sent_then :
    (a a' a'' w w' w'' : ℕ)
    → (a' + w) % 2 ^ 64 ≡ (a + w') % 2 ^ 64
    → (a'' + w') % 2 ^ 64 ≡ (a' + w'') % 2 ^ 64
    → (a'' + w) % 2 ^ 64 ≡ (a + w'') % 2 ^ 64
sent_then a a' a'' w w' w'' x y = omega arith

Accounts-then :
    (m n : ℕ) (s t u : ForkSession) → Accounts m s t → Accounts n t u → Accounts (m + n) s u
Accounts-then m n s t u a b = record {
  valid = b.valid;
  running = b.running;
  total = total_then (accounted s) (accounted t) (accounted u) m n a.total b.total;
  sent =
      sent_then s.sent_bytes t.sent_bytes u.sent_bytes (length (wire s.trace))
        (length (wire t.trace)) (length (wire u.trace)) a.sent b.sent;
}

module _ (env : Environment) where
  move-Accounts :
      (s : ForkSession) (m : Move)
      → IsValid s
      → is_running s.state ≡ true
      → Accounts (pushed_by m) s (move env s m)
  move-Accounts s (push pcm) v r = push-Accounts pcm s v r
  move-Accounts s drain v r = drain-Accounts s v r
  move-Accounts s flush v r = flush-Accounts env s v r

  -- From a session with a valid pool, buffer and ring that no teardown has ended, over any sequence
  -- of frames pushed, paused or not, rings drained and flushes, with a connection or none, which
  -- takes what it likes: every byte pushed is on the wire, in the buffer, in the ring, or counted
  -- once, as dropped from the buffer, as refused by the ring, or as discarded while paused. What is
  -- counted as sent is what went on the wire. (Counters of 64 bits.)
  pub moves-Accounts :
      (s : ForkSession) (ms : List Move)
      → IsValid s
      → is_running s.state ≡ true
      → Accounts (pushed ms) s (moves env s ms)
  moves-Accounts s [] v r = record {
    valid = v;
    running = r;
    total = none_pushed (accounted s);
    sent = refl;
  }
    where
      none_pushed : (n : ℕ) → n % 2 ^ 64 ≡ (n + 0) % 2 ^ 64
      none_pushed n = omega arith
  moves-Accounts s (m ∷ ms) v r =
      let a = move-Accounts s m v r in
      Accounts-then (pushed_by m) (pushed ms) s (move env s m) (moves env s (m ∷ ms)) a
        (moves-Accounts (move env s m) ms a.valid a.running)
