-- ===== src/ForkSession/Lifecycle.antt =====
-- The life of a session in core/src/fork_session.cpp: `Apply` with what it calls, `Pump`, and the
-- callbacks of the connection, the timer and the tasks that other threads post. All of these run on
-- the shard's thread, and only they deliver events, so `OnEvent` is `on_event`.
pub mod Fuel
pub mod Finish
pub mod Quiet
pub mod Ends
pub mod Runs
mod Tests
use mod_audio_fork.Common.{
  ℕ, zero, suc, ◌+◌, ◌-◌, ◌*◌, ◌/◌, ◌==◌, not, leb, Bool, true, false, ◌&&◌, ◌||◌, Option, none,
  some, List, [], ◌∷◌, if◌then◌else◌, length, add64, Text, codes,
}
use mod_audio_fork.SlabQueue
use mod_audio_fork.JitterBuffer
use mod_audio_fork.SessionState.{
  SessionState, connecting, active, draining, SessionEvent, ws_connected, ws_error, teardown,
  retry_timer_fired, drain_complete, close_complete, SessionAction, no_action, notify_connected,
  schedule_retry, begin_connect, begin_drain, begin_close, abandon_socket, finalize, on_event,
}
use mod_audio_fork.Protocol.{
  JsonLibrary, encode_hello, encode_resume, encode_bye, ServerMessage, start_playback,
  clear_playback, playback_mark, server_disconnect, relay_to_app, invalid_message,
  parse_server_message,
}
use mod_audio_fork.ForkSession.{ForkSession, Playback}
use mod_audio_fork.ForkSession.Ports.{
  Environment, Endpoint, Task, tear_down, deliver, modify, emitted, connected, closed, scheduled,
  finished, connect, connect_failed, reconnecting, resume, json, json_error, disconnect, error,
  stop, playback_stop,
}
use mod_audio_fork.ForkSession.Media.{is_running}
use mod_audio_fork.ForkSession.Outbound.{
  log, event, emit, bytes_to_ms, drain_handoff_ring, flush_to_connection, restore_cap_if_drained,
}
use mod_audio_fork.ForkSession.Texts.{is_active, connection_text, deliver_text, flush_pending_texts}
use mod_audio_fork.ForkSession.Inbound.{
  pump_playback, unsupported, handle_playback_start, handle_clear, handle_mark,
}

abbrev pub is_draining : SessionState → Bool
is_draining draining = true
is_draining _ = false

abbrev pub is_connecting : SessionState → Bool
is_connecting connecting = true
is_connecting _ = false

-- `Apply`, for what it does next.
abbrev pub Next : Type 0
Next = SessionAction → ForkSession → ForkSession

-- `Apply(state_.OnEvent(e).action)`.
unfoldable pub react : Next → SessionEvent → ForkSession → ForkSession
react next e s = let (r, state) = on_event s.state e in next r.action (record s { state = state })

unfoldable pub close_connection : ForkSession → ForkSession
close_connection s = if s.connection then record (log closed s) { connection = false } else s

-- `Finalize`.
unfoldable pub end_playback : Option Playback → ForkSession → ForkSession
end_playback none s = s
end_playback (some b) s =
    let (p, j) = JitterBuffer.clear s.pool b.buffer in
    let s' : ForkSession = record s { pool = p; playback = some (record b { buffer = j }) } in
    if s'.playback_started then emit playback_stop [] s' else s'

unfoldable pub finish : ForkSession → ForkSession
unfolding end_playback
finish s =
    let (p, q) = SlabQueue.clear s.pool s.buffer.queue in
    let s' : ForkSession = record s {
      pool = p;
      buffer = record s.buffer { queue = q };
      pending_texts_dropped = add64 s.pending_texts_dropped (length s.pending_texts);
      pending_texts = [];
    } in
    let ended = end_playback s'.playback s' in
    let stopped = emit stop [] (record ended { connection = false }) in
    if stopped.on_finished then log finished (record stopped { on_finished = false }) else stopped

module _ (env : Environment) where
  unfoldable pub retry_later : ForkSession → ForkSession
  retry_later s = log (scheduled (env.delay s.drawn s.trace)) (record s { drawn = s.drawn + 1 })

  -- `BeginConnect`.
  unfoldable pub open_connection : Next → ForkSession → ForkSession
  unfolding react
  open_connection next s =
      let made = env.connects s.trace in
      let s' : ForkSession =
        record (log (connected s.params.endpoint (s.tuning.coalesce_max_bytes * 4) made) s) {
          connection = made;
        } in
      let failed =
        react next ws_error (if s'.reconnecting then s' else emit connect_failed [] s') in
      if made then s' else failed

  -- `BeginClose`.
  unfoldable pub close_down : Next → ForkSession → ForkSession
  unfolding react
  close_down next s =
      let gone = react next close_complete s in if s.connection then log closed s else gone

  module _ {J : Type 0} (library : JsonLibrary J) where
    -- The end of the drain: the goodbye, once the buffer is empty, or the deadline.
    abbrev pub say_goodbye : ForkSession → ForkSession
    say_goodbye s =
        if (s.buffer.queue.size == 0) && not s.bye_sent && s.connection
        then (let (taken, s') = connection_text env (encode_bye library) s in
            record s' { bye_sent = taken })
        else s

    abbrev pub expired : ForkSession → Bool
    expired s = elim s.drain_deadline [ none ↦ false | some t ↦ leb t (env.now s.trace) ]

    unfoldable pub pump : Next → ForkSession → ForkSession
    unfolding react
    pump next s =
        let s' = pump_playback (drain_handoff_ring s) in
        let sent = flush_to_connection env s' in
        let late = expired sent in
        let bye = say_goodbye sent in
        let complete = react next drain_complete bye in
        if is_active s'.state
        then restore_cap_if_drained sent
        else if not (is_draining s'.state)
        then s'
        else if ((sent.buffer.queue.size == 0) && bye.bye_sent) || late
        then complete
        else bye

    -- `BeginDrain`.
    unfoldable pub drain_out : Next → ForkSession → ForkSession
    unfolding react pump
    drain_out next s =
        let s' : ForkSession = record s {
          drain_deadline = some (env.now s.trace + s.tuning.drain_timeout * 1000000);
        } in
        let pumped = pump next s' in
        let complete = react next drain_complete s' in if s'.connection then pumped else complete

    -- After the hello: the resume of a connection that was lost, or the first connect.
    abbrev pub resume_gap : ForkSession → ℕ
    resume_gap s = elim s.disconnected_at [ none ↦ 0 | some t ↦ (env.now s.trace - t) / 1000000 ]

    unfoldable pub greet : ForkSession → ForkSession
    greet s =
        if s.reconnecting && not s.endpoint_changed
        then (let gap = resume_gap s in
            let lost = bytes_to_ms s.dropped_since_resume s in
            let (taken, s') = connection_text env (encode_resume library gap lost) s in
            record (log (emitted (event resume [] gap lost s')) s') {
              reconnecting = false;
              dropped_since_resume = 0;
              reconnects = add64 s.reconnects 1;
            })
        else emit connect [] s

    unfoldable pub greeted : Next → ForkSession → ForkSession
    unfolding greet pump
    greeted next s =
        let g = greet s in
        let s' : ForkSession =
          (if g.endpoint_changed
            then record g {
              endpoint_changed = false;
              reconnecting = false;
              dropped_since_resume = 0;
            }
            else g) in
        pump next (flush_pending_texts env (record s' { disconnected_at = none }))

    -- `kNotifyConnected`.
    unfoldable pub say_hello : Next → Option Text → ForkSession → ForkSession
    unfolding react greeted
    say_hello next none s =
        react next teardown (emit error (codes "invalid fork parameters for hello") s)
    say_hello next (some hello) s =
        let (taken, offered) = connection_text env hello s in
        let s' : ForkSession = (if s.connection then offered else s) in
        let failed = react next ws_error (emit error (codes "hello could not be sent") s') in
        let done = greeted next s' in if s.connection && taken then done else failed

    abbrev pub hello_of : ForkSession → Option Text
    hello_of s =
        encode_hello library s.params.call_uuid s.params.format.sample_rate s.params.format.channels
          s.params.metadata_json

    unfoldable pub apply_one : Next → Next
    unfolding say_hello open_connection drain_out close_down finish
    apply_one next notify_connected s =
        let s' : ForkSession = record s { drawn = 0 } in say_hello next (hello_of s') s'
    apply_one next schedule_retry s =
        retry_later (emit reconnecting [] (record s { reconnecting = true }))
    apply_one next begin_connect s = open_connection next s
    apply_one next begin_drain s = drain_out next s
    apply_one next begin_close s = close_down next s
    apply_one next abandon_socket s = close_connection s
    apply_one next finalize s = finish s
    apply_one next no_action s = s

    unfoldable pub apply_within : ℕ → Next
    unfolding apply_one
    apply_within zero a s = s
    apply_within (suc fuel) a s = apply_one (apply_within fuel) a s

    -- `Apply`: it calls itself at most three deep.
    unfoldable pub apply : Next
    unfolding apply_within
    apply = apply_within 4

    abbrev pub on_session_event : SessionEvent → ForkSession → ForkSession
    on_session_event e s = react apply e s

    unfoldable pub start : ForkSession → ForkSession
    start s = open_connection apply s

    unfoldable pub pump_session : ForkSession → ForkSession
    pump_session s = pump apply s

    unfoldable pub on_connected : ForkSession → ForkSession
    on_connected s =
        let (r, state) = on_event s.state ws_connected in
        let s' : ForkSession = record s { state = state } in
        let done = apply r.action s' in
        elim r.action [ abandon_socket ↦ close_connection s' | _ ↦ done ]

    unfoldable pub on_closed : (failed : Bool) → ForkSession → ForkSession
    on_closed failed s =
        let gone : ForkSession = record s { connection = false } in
        let s' : ForkSession = record gone {
          disconnected_at = elim gone.disconnected_at [
            | none ↦ some (env.now gone.trace)
            | some t ↦ some t
          ];
        } in
        on_session_event ws_error (
          if failed && is_connecting s'.state && not s'.reconnecting
          then emit connect_failed [] s'
          else s')

    -- A playback control.
    abbrev pub on_control : (ℕ → Text) → ServerMessage → Option Playback → ForkSession → ForkSession
    on_control to_string message none s =
        unsupported (codes "playback control received but playback is not enabled") s
    on_control to_string (start_playback rate channels) (some b) s =
        handle_playback_start to_string rate channels s
    on_control to_string clear_playback (some b) s = handle_clear b s
    on_control to_string (playback_mark name) (some b) s = handle_mark name b s
    on_control to_string _ (some b) s = s

    unfoldable pub on_message : (ℕ → Text) → ServerMessage → ForkSession → ForkSession
    on_message to_string server_disconnect s = on_session_event teardown (emit disconnect [] s)
    on_message to_string (relay_to_app payload) s = emit json payload s
    on_message to_string (invalid_message reason) s = emit json_error reason s
    on_message to_string message s = on_control to_string message s.playback s

    unfoldable pub on_text : (ℕ → Text) → Text → ForkSession → ForkSession
    unfolding on_message
    on_text to_string text s = on_message to_string (parse_server_message library text) s

    unfoldable pub apply_modify : Endpoint → ForkSession → ForkSession
    apply_modify endpoint s =
        let s' : ForkSession = record s {
          params = record s.params { endpoint = endpoint };
          endpoint_changed = true;
          drawn = 0;
        } in
        let (taken, bye) = connection_text env (encode_bye library) s' in
        if not (is_running s.state)
        then s
        else if s'.connection
        then record (log closed bye) { connection = false }
        else s'

    unfoldable pub run_task : Task → ForkSession → ForkSession
    unfolding apply_modify
    run_task tear_down s = on_session_event teardown s
    run_task (deliver text) s = deliver_text env text s
    run_task (modify endpoint) s = apply_modify endpoint s

    -- The oldest task that was posted.
    abbrev pub run_posted : List Task → ForkSession → ForkSession
    run_posted [] s = s
    run_posted (task ∷ tasks) s = run_task task (record s { posted = tasks })

    unfoldable pub on_timer : ForkSession → ForkSession
    on_timer s = on_session_event retry_timer_fired s
