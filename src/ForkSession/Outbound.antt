-- ===== src/ForkSession/Outbound.antt =====
-- The outbound audio of core/src/fork_session.cpp: from the ring into the send buffer, and from there
-- to the connection.
pub mod Loss
pub mod Drain
pub mod Flush
pub mod Account
mod Tests
use mod_audio_fork.Common.{
  ℕ, zero, suc, ◌+◌, ◌-◌, ◌*◌, ◌/◌, ◌%◌, ◌^◌, ◌==◌, not, ltb, Bool, true, false, ◌||◌, ◌&&◌, Option,
  none, some, List, [], ◌∷◌, if◌then◌else◌, length, add64, Text, codes,
}
use mod_audio_fork.SlabQueue
use mod_audio_fork.SpscRing
use mod_audio_fork.SendBuffer
use mod_audio_fork.SendBuffer.{SendBuffer, AppendResult}
use mod_audio_fork.SlabPool.{SlabPool}
use mod_audio_fork.ForkSession.{ForkSession}
use mod_audio_fork.ForkSession.Ports.{
  bytes_per_second, ForkEventType, overrun, degraded, ForkEvent, Effect, emitted, sent_binary,
  Environment,
}

abbrev pub drain_chunk_bytes : ℕ
drain_chunk_bytes = 8192

abbrev pub log : Effect → ForkSession → ForkSession
log e s = record s { trace = e ∷ s.trace }

abbrev pub event : ForkEventType → Text → (gap_ms dropped_ms : ℕ) → ForkSession → ForkEvent
event type detail gap_ms dropped_ms s = record {
  type = type;
  call_uuid = s.params.call_uuid;
  fork_id = s.params.fork_id;
  detail = detail;
  gap_ms = gap_ms;
  dropped_ms = dropped_ms;
}

abbrev pub emit : ForkEventType → Text → ForkSession → ForkSession
emit type detail s = log (emitted (event type detail 0 0 s)) s

abbrev pub bytes_to_ms : ℕ → ForkSession → ℕ
bytes_to_ms bytes s =
    let per_second = bytes_per_second s.params.format in
    if per_second == 0 then 0 else bytes * 1000 % 2 ^ 64 / per_second

unfoldable pub emit_overrun_if_new_episode : (dropped : ℕ) → ForkSession → ForkSession
emit_overrun_if_new_episode dropped s =
    if s.dropping
    then s
    else record (log
        (emitted (
          event overrun (codes "send buffer full, dropping oldest audio") 0 (bytes_to_ms dropped s)
            s))
        s) { dropping = true }

abbrev pub put_buffer : SlabPool → SendBuffer → ForkSession → ForkSession
put_buffer p b s = record s { pool = p; buffer = b }

-- The bytes shed.
unfoldable pub degrade_if_new_episode : ForkSession → ℕ × ForkSession
degrade_if_new_episode s =
    if s.tuning.emergency_cap_bytes == 0 || s.degraded
    then (0, s)
    else let (shed, p, b) = SendBuffer.set_cap s.tuning.emergency_cap_bytes s.pool s.buffer in
      (
        shed,
        emit degraded (codes "global memory cap reached, send buffer cut to the emergency cap")
            (record (put_buffer p b s) { degraded = true }),
      )

unfoldable pub restore_cap_if_drained : ForkSession → ForkSession
restore_cap_if_drained s =
    if not s.degraded || s.pool_starved || not (s.buffer.queue.size == 0)
    then s
    else let (_, p, b) = SendBuffer.set_cap s.tuning.send_cap_bytes s.pool s.buffer in
      record (put_buffer p b s) { degraded = false }

abbrev pub count_dropped : ℕ → ForkSession → ForkSession
count_dropped n s = record s {
  buffer_dropped_bytes = add64 s.buffer_dropped_bytes n;
  dropped_since_resume = add64 s.dropped_since_resume n;
}

-- The loop's body in three parts, for `count` bytes popped: appended, the emergency, the overrun.
unfoldable pub drain_starved : AppendResult → ForkSession → ForkSession
unfolding degrade_if_new_episode
drain_starved result s =
    if result.pool_exhausted
    then (let (shed, s') = degrade_if_new_episode s in count_dropped shed s')
    else s

unfoldable pub drain_overrun : AppendResult → ForkSession → ForkSession
unfolding emit_overrun_if_new_episode
drain_overrun result s =
    if ltb 0 result.dropped_bytes
    then emit_overrun_if_new_episode result.dropped_bytes (count_dropped result.dropped_bytes s)
    else record s { dropping = false }

abbrev pub note_buffered : ForkSession → ForkSession
note_buffered s = record s { buffered_bytes = s.buffer.queue.size }

unfoldable pub drain_round : List ℕ → ForkSession → ForkSession
unfolding drain_starved drain_overrun
drain_round bytes s =
    let (result, p, b) = SendBuffer.append bytes s.pool s.buffer in
    let s' : ForkSession = record (put_buffer p b s) { pool_starved = result.pool_exhausted } in
    drain_overrun result (note_buffered (drain_starved result s'))

abbrev pub drain_next : (ForkSession → ForkSession) → List ℕ → ForkSession → ForkSession
drain_next loop [] s = s
drain_next loop (b ∷ bs) s = loop (drain_round (b ∷ bs) s)

unfoldable pub drain_loop : ℕ → ForkSession → ForkSession
unfolding drain_round
drain_loop zero s = s
drain_loop (suc fuel) s =
    let (bytes, r) = SpscRing.pop drain_chunk_bytes s.ring in
    drain_next (drain_loop fuel) bytes (record s { ring = r })

-- `DrainHandoffRing`, with no push of the media thread between its rounds.
unfoldable pub drain_handoff_ring : ForkSession → ForkSession
unfolding drain_loop
drain_handoff_ring s = drain_loop (suc (SpscRing.size s.ring)) s

abbrev pub sent_chunk : List ℕ → ForkSession → ForkSession
sent_chunk chunk s =
    let (p, q) = SlabQueue.consume (length chunk) s.pool s.buffer.queue in
    record s {
      pool = p;
      buffer = record s.buffer { queue = q };
      sent_bytes = add64 s.sent_bytes (length chunk);
    }

module _ (env : Environment) where
  abbrev pub send_binary : List ℕ → ForkSession → Bool × ForkSession
  send_binary bytes s =
      let taken = env.takes_binary s.trace bytes in (taken, log (sent_binary bytes taken) s)

  -- The loop's body, for the chunk that was peeked at; an early return skips the note of the size.
  unfoldable pub flush_round :
      (ℕ → ForkSession → ForkSession) → (sent : ℕ) → List ℕ → ForkSession → ForkSession
  flush_round loop sent [] s = s
  flush_round loop sent (b ∷ bs) s =
      let (taken, s') = send_binary (b ∷ bs) s in
      let rest = loop (sent + length (b ∷ bs)) (sent_chunk (b ∷ bs) s') in
      if taken then rest else s'

  unfoldable pub flush_loop : (fuel sent : ℕ) → ForkSession → ForkSession
  unfolding flush_round
  flush_loop zero sent s = s
  flush_loop (suc fuel) sent s =
      let max_bytes = s.tuning.coalesce_max_bytes - sent in
      let rest = flush_round (flush_loop fuel) sent (SlabQueue.peek max_bytes s.buffer.queue) s in
      if not (s.buffer.queue.size == 0) && ltb sent s.tuning.coalesce_max_bytes
      then rest
      else note_buffered s

  -- Each round but the last sends a byte at least.
  unfoldable pub flush_to_connection : ForkSession → ForkSession
  unfolding flush_loop
  flush_to_connection s =
      if s.connection then flush_loop (suc s.tuning.coalesce_max_bytes) 0 s else s
