-- ===== src/ForkSession/Inbound/Barge.antt =====
-- A barge-in in core/src/fork_session.cpp, from the server's `clear` to the media thread's next read.
use mod_audio_fork.Common.{
  ℕ, ◌^◌, ◌<◌, ◌≡◌, refl, sym, ◌∙◌, ap, subst, true, ◌&&◌, some, [], if_ind, add64, arith,
}
use mod_audio_fork.SpscRing.Fifo
use mod_audio_fork.JitterBuffer
use mod_audio_fork.JitterBuffer.{JitterBuffer}
use mod_audio_fork.JitterBuffer.Marks
use mod_audio_fork.JitterBuffer.Marks.{clear-IsValid}
use mod_audio_fork.JitterBuffer.Weave.{view}
use mod_audio_fork.JitterBuffer.Stream.{clear_mutes}
use mod_audio_fork.ForkSession.{ForkSession, Playback}
use mod_audio_fork.ForkSession.Ports.{playback_cleared}
use mod_audio_fork.ForkSession.Outbound.{emit}
use mod_audio_fork.ForkSession.Media.{read_playback}
use mod_audio_fork.ForkSession.Media.Reads.{read_playback-Reads}
use mod_audio_fork.ForkSession.Inbound.{handle_clear}

-- After the clear: nothing waits in the buffer, which is muted, and the ring is as it was.
record Cleared (b : Playback) (s s' : ForkSession) : Type 0 where
  playback : Playback
  kept : s'.playback ≡ some playback
  ring : playback.ring ≡ b.ring
  buffer : playback.buffer ≡ (JitterBuffer.clear s.pool b.buffer).1
  generation : s'.playback_generation ≡ add64 s.playback_generation 1
  media : s'.media_playback_generation ≡ s.media_playback_generation

handle_clear-Cleared : (b : Playback) (s : ForkSession) → Cleared b s (handle_clear b s)
unfolding handle_clear
handle_clear-Cleared b s =
    if_ind (λ x. Cleared b s (emit playback_cleared [] x)) (s.receive_paused && s.connection)
      (λ _. record {
        playback = record b { buffer = (JitterBuffer.clear s.pool b.buffer).1 };
        kept = refl;
        ring = refl;
        buffer = refl;
        generation = refl;
        media = refl;
      })
      (λ _. record {
        playback = record b { buffer = (JitterBuffer.clear s.pool b.buffer).1 };
        kept = refl;
        ring = refl;
        buffer = refl;
        generation = refl;
        media = refl;
      })

-- After a clear, for a session whose media thread was up to date, the media thread's next read returns
-- nothing and leaves the ring empty, and the buffer holds nothing, marks included, and is muted.
pub barge_in_silences :
    (room : ℕ) (s : ForkSession) (b : Playback)
    → Fifo.IsValid b.ring
    → Marks.IsValid s.pool b.buffer
    → s.playback_generation ≡ s.media_playback_generation
    → s.playback_generation < 2 ^ 64
    → 0 < room
    → let (out, s') = read_playback room (handle_clear b s) in
      (out ≡ [])
      × ((after : Playback) × (s'.playback ≡ some after)
          × (Fifo.contents after.ring ≡ [])
          × (view after.buffer ≡ [])
          × (after.buffer.muted ≡ true))
barge_in_silences room s b v w g l p =
    let c = handle_clear-Cleared b s in
    let (silent, r) =
      (read_playback-Reads room (handle_clear b s) c.playback c.kept
          (subst Fifo.IsValid (sym c.ring) v) p).0
        (λ e. stale s.playback_generation l (sym c.generation ∙ e ∙ c.media ∙ sym g)) in
    let same : r.playback.buffer ≡ (JitterBuffer.clear s.pool b.buffer).1 = r.buffer ∙ c.buffer in
    let (_, empty, _, _) = clear_mutes s.pool b.buffer w in
    let (_, _, _, muted, _, _) = clear-IsValid s.pool b.buffer w in
    (
      silent,
      (
        r.playback,
        r.kept,
        r.contents,
        ap view same ∙ empty,
        ap (λ (j : JitterBuffer). j.muted) same ∙ muted,
      ),
    )
  where
    stale : (n : ℕ) → n < 2 ^ 64 → add64 n 1 ≡ n → ⊥
    stale n l e = omega arith
