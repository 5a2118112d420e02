-- ===== src/ForkSession/Media/Tests.antt =====
-- Runs of the media thread's calls of core/src/fork_session.cpp.
use mod_audio_fork.Common.{◌+◌, ◌%◌, ◌^◌, ◌≡◌, ◌≢◌, refl, [], length, take, drop, arith}
use mod_audio_fork.SpscRing.Fifo
use mod_audio_fork.ForkSession.Samples.{session, playback, ring, ring-IsValid}
use mod_audio_fork.ForkSession.Media.{read_playback}
use mod_audio_fork.ForkSession.Media.Reads.{Reads, read_playback-Reads}

read_playback-Reads_example :
    let (out, s') = read_playback 1 session in
    (session.playback_generation ≢ session.media_playback_generation
      → (out ≡ []) × Reads session playback [] s')
    × (session.playback_generation ≡ session.media_playback_generation
        → (out ≡ take 1 (Fifo.contents ring))
          × Reads session playback (drop 1 (Fifo.contents ring)) s'
          × (s'.playback_bytes_played % 2 ^ 64
              ≡ (session.playback_bytes_played + length out) % 2 ^ 64))
read_playback-Reads_example = read_playback-Reads 1 session playback refl ring-IsValid (omega arith)
