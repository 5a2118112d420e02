-- ===== src/ForkSession/Inbound/Pump.antt =====
-- A call of `PumpPlayback` of core/src/fork_session.cpp: what it hands on, and the watermarks.
use mod_audio_fork.Common.{ℕ, ◌+◌, ◌<◌, ◌≤◌, ◌≡◌, ◌⊎◌, true, false, some, [], length}
use mod_audio_fork.SlabPool.{SlabPool}
use mod_audio_fork.SlabQueue
use mod_audio_fork.SpscRing
use mod_audio_fork.SpscRing.Fifo
use mod_audio_fork.JitterBuffer
use mod_audio_fork.JitterBuffer.Marks.{audio}
use mod_audio_fork.ForkSession.{ForkSession, Playback}
use mod_audio_fork.ForkSession.Inbound.Hand.{unplayed, IsValid}

-- The audio that waits to be played, in bytes, as the watermarks count it.
abbrev pub in_flight : Playback → ℕ
in_flight b = b.buffer.queue.size + SpscRing.size b.ring

-- With a connection, it is paused only over the low mark, and not paused only below the high one (or
-- where both are met).
abbrev pub Watched : ℕ → ForkSession → Type 0
Watched n s =
    (s.receive_paused ≡ true
      → (s.tuning.playback_low_watermark_bytes < n) ⊎ (s.tuning.playback_high_watermark_bytes ≤ n))
    × (s.receive_paused ≡ false
        → (n < s.tuning.playback_high_watermark_bytes)
          ⊎ (n ≤ s.tuning.playback_low_watermark_bytes))

-- After a call, from the session and its playback before.
pub record Pumped (s : ForkSession) (b : Playback) (s' : ForkSession) : Type 0 where
  pub playback : Playback
  pub present : s'.playback ≡ some playback
  pub kept : unplayed playback ≡ unplayed b
  pub valid : IsValid s'.pool playback
  pub told : playback.buffer.reached_marks ≡ []
  pub stops :
      (audio playback.buffer ≡ [])
      ⊎ (length playback.ring.storage
          < length (Fifo.contents playback.ring)
            + length (SlabQueue.peek s.tuning.playback_handoff_bytes playback.buffer.queue))
  pub watched : s'.connection ≡ true → Watched (in_flight playback) s'
