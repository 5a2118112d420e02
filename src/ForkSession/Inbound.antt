-- ===== src/ForkSession/Inbound.antt =====
-- The inbound audio of core/src/fork_session.cpp: from the connection into the jitter buffer, from there
-- into the ring that the media thread reads, with the watermarks and the barge-in.
pub mod Hand
pub mod Pump
pub mod Barge
mod Tests
use mod_audio_fork.Common.{
  ℕ, zero, suc, ◌+◌, ◌==◌, not, ltb, leb, Bool, true, false, ◌&&◌, Option, none, some, List, [],
  ◌∷◌, ◌++◌, if◌then◌else◌, length, add64, Text, codes,
}
use mod_audio_fork.SlabPool.{SlabPool}
use mod_audio_fork.SlabQueue
use mod_audio_fork.SpscRing
use mod_audio_fork.JitterBuffer
use mod_audio_fork.JitterBuffer.{JitterBuffer}
use mod_audio_fork.ForkSession.{ForkSession, Playback}
use mod_audio_fork.ForkSession.Ports.{
  ForkEventType, error, playback_start, playback_cleared, mark, set_receive_paused, emitted,
}
use mod_audio_fork.ForkSession.Outbound.{log, emit}

abbrev pub put_playback : SlabPool → Playback → ForkSession → ForkSession
put_playback p b s = record s { pool = p; playback = some b }

-- The loop of `PumpPlayback`, over the buffer and the ring. Each round but the last takes a byte at
-- least.
abbrev pub hand_on :
    (SlabPool → Playback → SlabPool × Playback) → List ℕ → SlabPool → Playback → SlabPool × Playback
hand_on loop [] p b = (p, b)
hand_on loop (x ∷ xs) p b =
    let (pushed, r) = SpscRing.push (x ∷ xs) b.ring in
    let (p', j) = JitterBuffer.consume (length (x ∷ xs)) p b.buffer in
    let rest = loop p' (record { buffer = j; ring = r }) in if pushed then rest else (p, b)

unfoldable pub hand_loop : (fuel handoff_bytes : ℕ) → SlabPool → Playback → SlabPool × Playback
hand_loop zero handoff_bytes p b = (p, b)
hand_loop (suc fuel) handoff_bytes p b =
    let rest =
      hand_on (hand_loop fuel handoff_bytes) (SlabQueue.peek handoff_bytes b.buffer.queue) p b in
    if b.buffer.queue.size == 0 then (p, b) else rest

abbrev pub emit_marks : List Text → ForkSession → ForkSession
emit_marks [] s = s
emit_marks (name ∷ names) s = emit_marks names (emit mark name s)

-- The watermarks, by the bytes that are not played yet.
unfoldable pub watch : (in_flight : ℕ) → ForkSession → ForkSession
watch in_flight s =
    if not s.receive_paused && leb s.tuning.playback_high_watermark_bytes in_flight
    then log (set_receive_paused true) (record s { receive_paused = true })
    else if s.receive_paused && leb in_flight s.tuning.playback_low_watermark_bytes
    then log (set_receive_paused false) (record s { receive_paused = false })
    else s

-- `PumpPlayback` where playback is on.
unfoldable pub pump_from : Playback → ForkSession → ForkSession
unfolding hand_loop watch
pump_from b s =
    let (p, b') = hand_loop (suc b.buffer.queue.size) s.tuning.playback_handoff_bytes s.pool b in
    let (names, j) = JitterBuffer.take_reached_marks b'.buffer in
    let s' = emit_marks names (put_playback p (record b' { buffer = j }) s) in
    let noted : ForkSession = record s' { playback_buffered_bytes = j.queue.size } in
    if noted.connection then watch (j.queue.size + SpscRing.size b'.ring) noted else noted

unfoldable pub pump_playback : ForkSession → ForkSession
unfolding pump_from
pump_playback s = elim s.playback [ none ↦ s | some b ↦ pump_from b s ]

-- Inbound audio or a playback control where playback is off: the first one is reported.
unfoldable pub unsupported : Text → ForkSession → ForkSession
unsupported detail s =
    let s' : ForkSession = record s { unsupported_inbound = add64 s.unsupported_inbound 1 } in
    if s.unsupported_inbound == 0 then emit error detail s' else s'

-- `OnBinary` where playback is on, for bytes that are there.
unfoldable pub take_audio : List ℕ → Playback → ForkSession → ForkSession
unfolding pump_playback
take_audio bytes b s =
    let (refused, p, j) = JitterBuffer.append bytes s.pool b.buffer in
    let s' : ForkSession = record (put_playback p (record b { buffer = j }) s) {
      playback_bytes_received = add64 s.playback_bytes_received (length bytes);
    } in
    let counted : ForkSession =
      (if ltb 0 refused && not j.muted
        then emit error (codes "playback buffer overflowed, audio discarded")
            (record s' { playback_bytes_dropped = add64 s'.playback_bytes_dropped refused })
        else s') in
    pump_playback (
      if not counted.playback_started && not (j.queue.size == 0)
      then emit playback_start [] (record counted { playback_started = true })
      else counted)

unfoldable pub on_binary : List ℕ → ForkSession → ForkSession
unfolding unsupported take_audio
on_binary [] s = s
on_binary (x ∷ xs) s = elim s.playback [
  | none ↦ unsupported (codes "inbound audio received but playback is not enabled") s
  | some b ↦ take_audio (x ∷ xs) b s
]

-- `HandleClear`.
unfoldable pub handle_clear : Playback → ForkSession → ForkSession
handle_clear b s =
    let (p, j) = JitterBuffer.clear s.pool b.buffer in
    let s' : ForkSession = record (put_playback p (record b { buffer = j }) s) {
      playback_generation = add64 s.playback_generation 1;
      playback_buffered_bytes = 0;
      barge_ins = add64 s.barge_ins 1;
      playback_started = false;
    } in
    emit playback_cleared [] (
      if s'.receive_paused && s'.connection
      then log (set_receive_paused false) (record s' { receive_paused = false })
      else s')

unfoldable pub handle_mark : Text → Playback → ForkSession → ForkSession
handle_mark name b s = record s {
  playback = some (record b { buffer = JitterBuffer.add_mark name b.buffer });
}

-- `HandlePlaybackStart`, by how `std::to_string` writes a number.
unfoldable pub handle_playback_start :
    (ℕ → Text) → (sample_rate channels : ℕ) → ForkSession → ForkSession
handle_playback_start to_string sample_rate channels s =
    let rated : ForkSession =
      (if sample_rate == 0 then s else record s { playback_rate = sample_rate }) in
    let s' : ForkSession =
      (if channels == 0 then rated else record rated { playback_channels = channels }) in
    record (emit playback_start
      (to_string s'.playback_rate ++ (47 ∷ to_string s'.playback_channels)) s') {
        playback_started = true;
      }
