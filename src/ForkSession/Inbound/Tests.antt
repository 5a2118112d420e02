-- ===== src/ForkSession/Inbound/Tests.antt =====
-- Runs of the inbound audio of core/src/fork_session.cpp.
use mod_audio_fork.Common.{◌≡◌, refl, false, true, some, [], ◌∷◌, codes, arith}
use mod_audio_fork.SlabQueue
use mod_audio_fork.SpscRing
use mod_audio_fork.SpscRing.Fifo
use mod_audio_fork.JitterBuffer
use mod_audio_fork.JitterBuffer.Marks
use mod_audio_fork.JitterBuffer.Weave.{view}
use mod_audio_fork.ForkSession.{ForkSession, Playback}
use mod_audio_fork.ForkSession.Samples.{session, pool, ring, ring-IsValid}
use mod_audio_fork.ForkSession.Media.{read_playback}
use mod_audio_fork.ForkSession.Inbound.{pump_playback, handle_clear}
use mod_audio_fork.ForkSession.Inbound.Barge.{barge_in_silences}

-- Two bytes in the ring, and three with a mark behind the second in the buffer.
abbrev speech : Playback
speech = record {
  buffer = record {
    queue = record {
      size = 3;
      chunks = record { storage = 1 ∷ 2 ∷ 3 ∷ 0 ∷ []; begin = 0; end = 3 } ∷ [];
    };
    cap_bytes = 8;
    muted = false;
    written_offset = 3;
    consumed_offset = 0;
    marks = record { offset = 2; name = codes "m" } ∷ [];
    reached_marks = [];
  };
  ring = ring;
}

speech-IsValid : Marks.IsValid pool speech.buffer
speech-IsValid = omega arith

abbrev speaking : ForkSession
speaking = record session { playback = some speech }

-- Five bytes are unplayed, and the high watermark is four.
paused : (pump_playback speaking).receive_paused ≡ true
unfolding pump_playback SlabQueue.peek SpscRing.push JitterBuffer.take_reached_marks
paused = refl

barge_in_silences_example :
    let (out, s') = read_playback 2 (handle_clear speech speaking) in
    (out ≡ [])
    × ((after : Playback) × (s'.playback ≡ some after)
        × (Fifo.contents after.ring ≡ [])
        × (view after.buffer ≡ [])
        × (after.buffer.muted ≡ true))
barge_in_silences_example =
    barge_in_silences 2 speaking speech ring-IsValid speech-IsValid refl (omega arith) (omega arith)
