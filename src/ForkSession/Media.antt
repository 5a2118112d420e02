-- ===== src/ForkSession/Media.antt =====
-- The calls of core/src/fork_session.cpp that the media thread and the control threads make.
pub mod Reads
mod Tests
use mod_audio_fork.Common.{
  ℕ, zero, suc, ◌==◌, not, ltb, Bool, true, false, ◌||◌, Option, none, some, List, [], ◌∷◌, ◌++◌,
  if◌then◌else◌, length, add64, Text,
}
use mod_audio_fork.SessionState.{SessionState, connecting, active, reconnecting}
use mod_audio_fork.SpscRing
use mod_audio_fork.SpscRing.{SpscRing}
use mod_audio_fork.ForkSession.{ForkSession, Playback}
use mod_audio_fork.ForkSession.Ports.{Endpoint, AudioFormat, Task, tear_down, deliver, modify}

-- The test of the state that opens most calls: no teardown has begun.
abbrev pub is_running : SessionState → Bool
is_running connecting = true
is_running active = true
is_running reconnecting = true
is_running _ = false

unfoldable pub push_audio : List ℕ → ForkSession → Bool × ForkSession
push_audio pcm s =
    if not (is_running s.state)
    then (false, s)
    else if s.paused
    then (true, record s { paused_bytes = add64 s.paused_bytes (length pcm) })
    else let (pushed, r) = SpscRing.push pcm s.ring in
      if pushed
      then (true, record s { ring = r })
      else (false, record s { media_dropped_bytes = add64 s.media_dropped_bytes (length pcm) })

-- The loop that empties the ring after a barge-in.
unfoldable pub discard : (fuel room : ℕ) → SpscRing → SpscRing
discard zero room r = r
discard (suc fuel) room r =
    let (out, r') = SpscRing.pop room r in
    let rest = discard fuel room r' in if length out == 0 then r' else rest

-- The read where playback is on: after a barge-in what the ring still holds is thrown away.
unfoldable pub read_from : (room : ℕ) → ForkSession → Playback → List ℕ × ForkSession
unfolding discard
read_from room s b =
    if not (s.playback_generation == s.media_playback_generation)
    then (
      [],
      record s {
        media_playback_generation = s.playback_generation;
        playback = some (record b { ring = discard (suc (SpscRing.size b.ring)) room b.ring });
      },
    )
    else let (filled, r) = SpscRing.pop room b.ring in
      let s' : ForkSession = record s { playback = some (record b { ring = r }) } in
      (
        filled,
        if length filled == 0
            then record s' { playback_underruns = add64 s'.playback_underruns 1 }
            else record s' {
              playback_bytes_played = add64 s'.playback_bytes_played (length filled);
            },
      )

-- Into a buffer of `room` bytes.
unfoldable pub read_playback : ℕ → ForkSession → List ℕ × ForkSession
unfolding read_from
read_playback room s = elim s.playback [
  | none ↦ ([], s)
  | some b ↦ if room == 0 then ([], s) else read_from room s b
]

abbrev pub playback_format : ForkSession → AudioFormat
playback_format s = record { sample_rate = s.playback_rate; channels = s.playback_channels }

abbrev pub set_paused : Bool → ForkSession → ForkSession
set_paused paused s = record s { paused = paused }

abbrev pub post : Task → ForkSession → ForkSession
post task s = record s { posted = s.posted ++ (task ∷ []) }

unfoldable pub stop : ForkSession → ForkSession
stop s = post tear_down s

unfoldable pub send_text : Text → ForkSession → Bool × ForkSession
send_text text s = if is_running s.state then (true, post (deliver text) s) else (false, s)

-- By the text that `EncodeDtmf` gives for the digit.
unfoldable pub send_dtmf : Option Text → ForkSession → Bool × ForkSession
unfolding send_text
send_dtmf none s = (false, s)
send_dtmf (some encoded) s = send_text encoded s

unfoldable pub modify_endpoint : Endpoint → ForkSession → Bool × ForkSession
modify_endpoint endpoint s =
    if is_running s.state then (true, post (modify endpoint) s) else (false, s)
