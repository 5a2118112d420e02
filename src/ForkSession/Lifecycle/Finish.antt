-- ===== src/ForkSession/Lifecycle/Finish.antt =====
-- The end of a session in core/src/fork_session.cpp: what `Finalize` gives back.
use mod_audio_fork.Common.{
  ℕ, ◌+◌, ◌≤◌, ◌≡◌, refl, sym, ◌∙◌, ap, subst, false, Option, none, some, List, [], ◌∷◌,
  if◌then◌else◌, if_ind, length, add64, arith,
}
use mod_audio_fork.SlabPool.{SlabPool}
use mod_audio_fork.SlabPool.Accounting
use mod_audio_fork.SlabQueue
use mod_audio_fork.SlabQueue.{SlabQueue, Chunk}
use mod_audio_fork.SlabQueue.Contents.{Holds, Keeps, IsChunks}
use mod_audio_fork.SlabQueue.Clear.{clear_releases}
use mod_audio_fork.SendBuffer.{SendBuffer}
use mod_audio_fork.JitterBuffer
use mod_audio_fork.JitterBuffer.{JitterBuffer}
use mod_audio_fork.JitterBuffer.Marks
use mod_audio_fork.JitterBuffer.Marks.{clear-IsValid}
use mod_audio_fork.ForkSession.{ForkSession, Playback}
use mod_audio_fork.ForkSession.Ports.{Effect, finished, playback_stop}
use mod_audio_fork.ForkSession.Outbound.{emit}
use mod_audio_fork.ForkSession.Lifecycle.{end_playback, finish}

-- The slabs that a session's playback leases.
abbrev pub playback_slabs : Option Playback → ℕ
playback_slabs none = 0
playback_slabs (some b) = length b.buffer.queue.chunks

-- Both buffers are valid in the pool that they share, and their leases are different ones.
pub record Leases (s : ForkSession) : Type 0 where
  pub buffer : Holds s.pool s.buffer.queue
  pub playback : (b : Playback) → s.playback ≡ some b → Marks.IsValid s.pool b.buffer
  pub apart : length s.buffer.queue.chunks + playback_slabs s.playback ≤ s.pool.leased_slabs

-- How often the owner was told that the session is finished.
abbrev pub finishes : List Effect → ℕ
finishes [] = 0
finishes (finished ∷ es) = finishes es + 1
finishes (_ ∷ es) = finishes es

pub record Finished (s s' : ForkSession) : Type 0 where
  pub buffer : s'.buffer.queue ≡ SlabQueue.empty
  pub texts : s'.pending_texts ≡ []
  pub connection : s'.connection ≡ false
  pub callback : s'.on_finished ≡ false
  pub told : finishes s'.trace ≡ finishes s.trace + (if s.on_finished then 1 else 0)
  pub pool : Accounting.IsValid s'.pool
  pub playback : playback_slabs s'.playback ≡ 0
  pub returned :
      s'.pool.leased_slabs + length s.buffer.queue.chunks + playback_slabs s.playback
      ≡ s.pool.leased_slabs

-- What `end_playback` leaves of what matters here.
record Ended (s : ForkSession) (s' : ForkSession) : Type 0 where
  buffer : s'.buffer ≡ s.buffer
  texts : s'.pending_texts ≡ s.pending_texts
  on_finished : s'.on_finished ≡ s.on_finished
  told : finishes s'.trace ≡ finishes s.trace
  pool : Accounting.IsValid s'.pool
  playback : playback_slabs s'.playback ≡ 0
  returned : s'.pool.leased_slabs + playback_slabs s.playback ≡ s.pool.leased_slabs

end_playback-Ended :
    (o : Option Playback) (s : ForkSession)
    → s.playback ≡ o
    → Accounting.IsValid s.pool
    → ((b : Playback) → o ≡ some b → Marks.IsValid s.pool b.buffer)
    → Ended s (end_playback o s)
unfolding end_playback JitterBuffer.clear SlabQueue.clear
end_playback-Ended none s e a v = record {
  buffer = refl;
  texts = refl;
  on_finished = refl;
  told = refl;
  pool = a;
  playback = ap playback_slabs e;
  returned = plus (s.pool.leased_slabs) _ (ap playback_slabs e);
}
  where
    plus : (m n : ℕ) → n ≡ 0 → m + n ≡ m
    plus m n z = omega arith
end_playback-Ended (some b) s e a v =
    if_ind (Ended s) s.playback_started (λ _. cleared keeps) (λ _. quiet keeps)
  where
    p : SlabPool
    p = (JitterBuffer.clear s.pool b.buffer).0

    keeps :
        Marks.IsValid p (JitterBuffer.clear s.pool b.buffer).1
        × Keeps s.pool p b.buffer.queue.chunks []
    keeps = let (valid, _, _, _, _, k) = clear-IsValid s.pool b.buffer (v b refl) in (valid, k)

    after : ForkSession
    after = record s {
      pool = p;
      playback = some (record b { buffer = (JitterBuffer.clear s.pool b.buffer).1 });
    }

    back : (m n k : ℕ) → k ≡ n → m + n ≡ s.pool.leased_slabs + 0 → m + k ≡ s.pool.leased_slabs
    back m n k x y = omega arith

    quiet :
        Marks.IsValid p (JitterBuffer.clear s.pool b.buffer).1
          × Keeps s.pool p b.buffer.queue.chunks []
        → Ended s after
    quiet (valid, k) = record {
      buffer = refl;
      texts = refl;
      on_finished = refl;
      told = refl;
      pool = valid.holds.valid;
      playback = refl;
      returned =
          back p.leased_slabs (length b.buffer.queue.chunks) _ (ap playback_slabs e) k.others;
    }

    cleared :
        Marks.IsValid p (JitterBuffer.clear s.pool b.buffer).1
          × Keeps s.pool p b.buffer.queue.chunks []
        → Ended s (emit playback_stop [] after)
    cleared (valid, k) = record {
      buffer = refl;
      texts = refl;
      on_finished = refl;
      told = refl;
      pool = valid.holds.valid;
      playback = refl;
      returned =
          back p.leased_slabs (length b.buffer.queue.chunks) _ (ap playback_slabs e) k.others;
    }

-- A buffer that another's release leaves valid.
still-IsValid :
    (p p' : SlabPool) (cs : List Chunk) (b : JitterBuffer)
    → Marks.IsValid p b
    → Accounting.IsValid p'
    → Keeps p p' cs []
    → length cs + length b.queue.chunks ≤ p.leased_slabs
    → Marks.IsValid p' b
still-IsValid p p' cs b v a k l = record {
  holds = record {
    valid = a;
    leases = fits p'.leased_slabs (length b.queue.chunks) k.others l;
    chunks = subst (λ o. IsChunks o.slab_size_bytes b.queue.chunks) (sym k.options) v.holds.chunks;
    sized = v.holds.sized;
  };
  capped = v.capped;
  counted = v.counted;
  small = v.small;
  ordered = v.ordered;
}
  where
    fits : (m n : ℕ) → m + length cs ≡ p.leased_slabs + 0 → length cs + n ≤ p.leased_slabs → n ≤ m
    fits m n e z = omega arith

-- `Finalize`, with valid buffers that lease different slabs of the pool, returns all slabs of both
-- buffers, empties the queue of texts, forgets the connection, and calls the owner back if it was not
-- called before.
pub finish-Finished : (s : ForkSession) → Leases s → Finished s (finish s)
unfolding finish
finish-Finished s l =
    let (empty, holds, keeps) = clear_releases s.pool s.buffer.queue l.buffer in
    let e = end_playback-Ended s.playback freed refl holds.valid (λ b x.
      still-IsValid s.pool freed.pool s.buffer.queue.chunks b.buffer (l.playback b x) holds.valid
        keeps (joint b x)) in
    if_ind (Finished s) (end_playback s.playback freed).on_finished
      (λ c. record {
        buffer = ap (λ (x : SendBuffer). x.queue) e.buffer ∙ empty;
        texts = e.texts;
        connection = refl;
        callback = refl;
        told =
            ap (λ (n : ℕ). n + 1) e.told
            ∙ ap (λ x. finishes s.trace + (if x then 1 else 0)) (sym (sym e.on_finished ∙ c));
        pool = e.pool;
        playback = e.playback;
        returned = both _ freed.pool.leased_slabs _ _ e.returned keeps.others;
      })
      (λ c. record {
        buffer = ap (λ (x : SendBuffer). x.queue) e.buffer ∙ empty;
        texts = e.texts;
        connection = refl;
        callback = c;
        told =
            e.told
            ∙ plus_none (finishes s.trace)
            ∙ ap (λ x. finishes s.trace + (if x then 1 else 0)) (sym (sym e.on_finished ∙ c));
        pool = e.pool;
        playback = e.playback;
        returned = both _ freed.pool.leased_slabs _ _ e.returned keeps.others;
      })
  where
    freed : ForkSession
    freed = record s {
      pool = (SlabQueue.clear s.pool s.buffer.queue).0;
      buffer = record s.buffer { queue = (SlabQueue.clear s.pool s.buffer.queue).1 };
      pending_texts_dropped = add64 s.pending_texts_dropped (length s.pending_texts);
      pending_texts = [];
    }

    joint :
        (b : Playback)
        → s.playback ≡ some b
        → length s.buffer.queue.chunks + length b.buffer.queue.chunks ≤ s.pool.leased_slabs
    joint b x =
        subst (λ o. length s.buffer.queue.chunks + playback_slabs o ≤ s.pool.leased_slabs) x l.apart

    plus_none : (n : ℕ) → n ≡ n + 0
    plus_none n = omega arith

    both :
        (m n c k : ℕ)
        → m + k ≡ n
        → n + c ≡ s.pool.leased_slabs + 0
        → m + c + k ≡ s.pool.leased_slabs
    both m n c k x y = omega arith
