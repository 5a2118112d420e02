-- ===== src/ForkSession/Lifecycle/Quiet.antt =====
-- The parts of core/src/fork_session.cpp that neither move a session's state nor end it.
pub mod Calls
pub mod Network
use mod_audio_fork.Common.{
  ℕ, zero, suc, ◌+◌, ◌-◌, ◌==◌, not, ltb, leb, ◌≡◌, refl, sym, ◌∙◌, ap, Bool, true, false, ◌&&◌,
  ◌||◌, Option, none, some, List, [], ◌∷◌, ◌++◌, if◌then◌else◌, if_ind, length, add64, Text, codes,
}
use mod_audio_fork.SlabPool.{SlabPool}
use mod_audio_fork.SlabQueue
use mod_audio_fork.SpscRing
use mod_audio_fork.JitterBuffer
use mod_audio_fork.SessionState.{SessionState}
use mod_audio_fork.SendBuffer
use mod_audio_fork.SendBuffer.{AppendResult}
use mod_audio_fork.Protocol.{JsonLibrary, encode_bye, ServerMessage}
use mod_audio_fork.ForkSession.{ForkSession, Playback}
use mod_audio_fork.ForkSession.Ports.{
  Environment, Effect, emitted, ForkEventType, stop, mark, Endpoint, error,
}
use mod_audio_fork.ForkSession.Media.{
  is_running, push_audio, read_from, read_playback, send_text, modify_endpoint,
}
use mod_audio_fork.ForkSession.Outbound.{
  put_buffer, count_dropped, drain_chunk_bytes, note_buffered, emit, emit_overrun_if_new_episode,
  degrade_if_new_episode, restore_cap_if_drained, drain_starved, drain_overrun, drain_round,
  drain_next, drain_loop, drain_handoff_ring, flush_round, flush_loop, flush_to_connection,
  send_binary, sent_chunk,
}
use mod_audio_fork.ForkSession.Texts.{
  max_pending_texts, is_active, drop_texts, connection_text, queue_text, deliver_text, flush_texts,
  flush_pending_texts,
}
use mod_audio_fork.ForkSession.Inbound.{
  put_playback, hand_loop, emit_marks, watch, pump_from, pump_playback, unsupported, take_audio,
  on_binary, handle_clear, handle_playback_start,
}
use mod_audio_fork.ForkSession.Lifecycle.{
  close_connection, end_playback, say_goodbye, greet, apply_modify, on_control,
}
use mod_audio_fork.ForkSession.Lifecycle.Finish.{finishes}

-- How often the end was announced.
abbrev pub stop_count : ForkEventType → ℕ → ℕ
stop_count stop n = n + 1
stop_count _ n = n

abbrev pub stops : List Effect → ℕ
stops [] = 0
stops (emitted e ∷ es) = stop_count e.type (stops es)
stops (_ ∷ es) = stops es

-- Whether the callback waits, and how often the end was announced and the owner called back.
abbrev pub told : ForkSession → Bool × ℕ × ℕ
told s = (s.on_finished, stops s.trace, finishes s.trace)

abbrev pub facts : ForkSession → SessionState × (Bool × ℕ × ℕ)
facts s = (s.state, told s)

-- None of these changes.
pub record Quiet (s s' : ForkSession) : Type 0 where
  pub same : facts s' ≡ facts s

pub still : {s s' : ForkSession} → facts s' ≡ facts s → Quiet s s'
still e = record { same = e }

pub and_then : {s t u : ForkSession} → Quiet s t → Quiet t u → Quiet s u
and_then p q = record { same = q.same ∙ p.same }

degrade-Quiet : (s : ForkSession) → Quiet s (degrade_if_new_episode s).1
unfolding degrade_if_new_episode
degrade-Quiet s =
    if_ind (λ (r : ℕ × ForkSession). Quiet s r.1) (s.tuning.emergency_cap_bytes == 0 || s.degraded)
      (λ _. still refl) (λ _. still refl)

drain_starved-Quiet : (r : AppendResult) (s : ForkSession) → Quiet s (drain_starved r s)
unfolding drain_starved
drain_starved-Quiet r s =
    if_ind (Quiet s) r.pool_exhausted (λ _. still (degrade-Quiet s).same) (λ _. still refl)

overrun-Quiet : (n : ℕ) (s : ForkSession) → Quiet s (emit_overrun_if_new_episode n s)
unfolding emit_overrun_if_new_episode
overrun-Quiet n s = if_ind (Quiet s) s.dropping (λ _. still refl) (λ _. still refl)

drain_overrun-Quiet : (r : AppendResult) (s : ForkSession) → Quiet s (drain_overrun r s)
unfolding drain_overrun
drain_overrun-Quiet r s =
    if_ind (Quiet s) (ltb 0 r.dropped_bytes)
      (λ _. still (overrun-Quiet r.dropped_bytes (count_dropped r.dropped_bytes s)).same)
      (λ _. still refl)

drain_round-Quiet : (bytes : List ℕ) (s : ForkSession) → Quiet s (drain_round bytes s)
unfolding drain_round
drain_round-Quiet bytes s =
    let (result, p, b) = SendBuffer.append bytes s.pool s.buffer in
    let s' : ForkSession = record (put_buffer p b s) { pool_starved = result.pool_exhausted } in
    let first : Quiet s (note_buffered (drain_starved result s')) =
      still (drain_starved-Quiet result s').same in
    and_then first (drain_overrun-Quiet result (note_buffered (drain_starved result s')))

drain_next-Quiet :
    (loop : ForkSession → ForkSession) (bytes : List ℕ) (s : ForkSession)
    → ((t : ForkSession) → Quiet t (loop t))
    → Quiet s (drain_next loop bytes s)
drain_next-Quiet loop [] s h = still refl
drain_next-Quiet loop (b ∷ bs) s h = and_then (drain_round-Quiet (b ∷ bs) s) (h _)

drain_loop-Quiet : (fuel : ℕ) (s : ForkSession) → Quiet s (drain_loop fuel s)
unfolding drain_loop
drain_loop-Quiet zero s = still refl
drain_loop-Quiet (suc fuel) s =
    let (bytes, r) = SpscRing.pop drain_chunk_bytes s.ring in
    still
      (drain_next-Quiet (drain_loop fuel) bytes (record s { ring = r })
        (drain_loop-Quiet fuel)).same

pub drain_handoff_ring-Quiet : (s : ForkSession) → Quiet s (drain_handoff_ring s)
unfolding drain_handoff_ring
drain_handoff_ring-Quiet s = drain_loop-Quiet (suc (SpscRing.size s.ring)) s

pub restore-Quiet : (s : ForkSession) → Quiet s (restore_cap_if_drained s)
unfolding restore_cap_if_drained
restore-Quiet s =
    if_ind (Quiet s) (not s.degraded || s.pool_starved || not (s.buffer.queue.size == 0))
      (λ _. still refl) (λ _. still refl)

emit_marks-Quiet : (names : List Text) (s : ForkSession) → Quiet s (emit_marks names s)
emit_marks-Quiet [] s = still refl
emit_marks-Quiet (n ∷ ns) s = still (emit_marks-Quiet ns (emit mark n s)).same

watch-Quiet : (n : ℕ) (s : ForkSession) → Quiet s (watch n s)
unfolding watch
watch-Quiet n s =
    if_ind (Quiet s) (not s.receive_paused && leb s.tuning.playback_high_watermark_bytes n)
      (λ _. still refl)
      (λ _.
        if_ind (Quiet s) (s.receive_paused && leb n s.tuning.playback_low_watermark_bytes)
          (λ _. still refl) (λ _. still refl))

pump_from-Quiet : (b : Playback) (s : ForkSession) → Quiet s (pump_from b s)
unfolding pump_from
pump_from-Quiet b s =
    let (p, b') = hand_loop (suc b.buffer.queue.size) s.tuning.playback_handoff_bytes s.pool b in
    let (names, j) = JitterBuffer.take_reached_marks b'.buffer in
    let put = put_playback p (record b' { buffer = j }) s in
    let noted : ForkSession = record (emit_marks names put) {
      playback_buffered_bytes = j.queue.size;
    } in
    let quiet : Quiet s noted = still (emit_marks-Quiet names put).same in
    if_ind (Quiet s) noted.connection
      (λ _. and_then quiet (watch-Quiet (j.queue.size + SpscRing.size b'.ring) noted)) (λ _. quiet)

pub pump_playback-Quiet : (s : ForkSession) → Quiet s (pump_playback s)
unfolding pump_playback
pump_playback-Quiet s = by_playback s.playback
  where
    by_playback : (o : Option Playback) → Quiet s (elim o [ none ↦ s | some b ↦ pump_from b s ])
    by_playback none = still refl
    by_playback (some b) = pump_from-Quiet b s
