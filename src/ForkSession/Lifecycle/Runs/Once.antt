-- ===== src/ForkSession/Lifecycle/Runs/Once.antt =====
-- The end of a session of core/src/fork_session.cpp comes once, over its whole life.
use mod_audio_fork.Common.{
  ℕ, ◌<◌, ◌≤◌, ◌≡◌, refl, ap, Bool, false, not, ◌&&◌, Option, none, some, List, [], ◌∷◌,
  if◌then◌else◌, if_ind, Text, arith,
}
use mod_audio_fork.SlabPool.{SlabPool}
use mod_audio_fork.SpscRing.{SpscRing}
use mod_audio_fork.SessionState.{
  SessionEvent, SessionAction, no_action, notify_connected, schedule_retry, begin_connect,
  begin_drain, begin_close, abandon_socket, finalize, on_event, ws_connected, ws_error, teardown,
  retry_timer_fired,
}
use mod_audio_fork.Protocol.{
  JsonLibrary, ServerMessage, start_playback, clear_playback, playback_mark, server_disconnect,
  relay_to_app, invalid_message, parse_server_message,
}
use mod_audio_fork.ForkSession.{ForkSession, Tuning, Playback, construct}
use mod_audio_fork.ForkSession.Ports.{
  Environment, ForkParams, Task, tear_down, deliver, modify, connect_failed, disconnect,
}
use mod_audio_fork.ForkSession.Media
use mod_audio_fork.ForkSession.Media.{
  push_audio, read_playback, set_paused, send_text, modify_endpoint,
}
use mod_audio_fork.ForkSession.Outbound.{emit}
use mod_audio_fork.ForkSession.Lifecycle.{
  is_connecting, react, close_connection, apply, on_session_event, start, pump_session,
  on_connected, on_closed, on_message, on_text, run_task, run_posted, on_timer,
}
use mod_audio_fork.ForkSession.Lifecycle.Finish.{finishes}
use mod_audio_fork.ForkSession.Lifecycle.Fuel.{rank-bounded}
use mod_audio_fork.ForkSession.Lifecycle.Quiet.{stops, still}
use mod_audio_fork.ForkSession.Lifecycle.Quiet.Network.{deliver_text-Quiet, apply_modify-Quiet}
use mod_audio_fork.ForkSession.Lifecycle.Quiet.Calls.{
  on_binary-Quiet, on_control-Quiet, close_connection-Quiet, push_audio-Quiet, read_playback-Quiet,
  send_text-Quiet, modify_endpoint-Quiet,
}
use mod_audio_fork.ForkSession.Lifecycle.Ends.{is_dead, one_if, Ends, Ends-Quiet, Owes, react-Owes}
use mod_audio_fork.ForkSession.Lifecycle.Ends.Apply.{pump-Ends, open_connection-Ends, apply-Well}
use mod_audio_fork.ForkSession.Lifecycle.Runs.{
  Move, pushed, read, paused_set, texted, redirected, stopped, task_run, ticked, timer_fired,
  opened, lost, text_received, bytes_received, started, move, moves,
}

module _ (env : Environment) {J : Type 0} (library : JsonLibrary J) (to_string : ℕ → Text) where
  module _ {called : Bool} where
    applied-Ends :
        (a : SessionAction) (s : ForkSession)
        → Owes called a s
        → Ends called (apply env library a s)
    applied-Ends a s o = apply-Well env library called a s (small (rank-bounded a)) o
      where
        small : {n : ℕ} → n ≤ 4 → n < 5
        small l = omega arith

    event-Ends :
        (e : SessionEvent) (s : ForkSession)
        → Ends called s
        → Ends called (on_session_event env library e s)
    unfolding react
    event-Ends e s h =
        applied-Ends (on_event s.state e).0.action (record s { state = (on_event s.state e).1 })
          (react-Owes e s h)

    -- A connection that comes too late is closed.
    opened-Ends :
        (a : SessionAction) (s done : ForkSession)
        → Owes called a s
        → Ends called done
        → Ends called (elim a [ abandon_socket ↦ close_connection s | _ ↦ done ])
    opened-Ends abandon_socket s done o h =
        Ends-Quiet (close_connection-Quiet s) (record { told = o.told })
    opened-Ends no_action s done o h = h
    opened-Ends notify_connected s done o h = h
    opened-Ends schedule_retry s done o h = h
    opened-Ends begin_connect s done o h = h
    opened-Ends begin_drain s done o h = h
    opened-Ends begin_close s done o h = h
    opened-Ends finalize s done o h = h

    message-Ends :
        (m : ServerMessage) (s : ForkSession)
        → Ends called s
        → Ends called (on_message env library to_string m s)
    unfolding on_message
    message-Ends server_disconnect s h =
        event-Ends teardown (emit disconnect [] s) (Ends-Quiet (still refl) h)
    message-Ends (relay_to_app payload) s h = Ends-Quiet (still refl) h
    message-Ends (invalid_message reason) s h = Ends-Quiet (still refl) h
    message-Ends (start_playback rate channels) s h =
        Ends-Quiet
          (on_control-Quiet env library to_string (start_playback rate channels) s.playback s) h
    message-Ends clear_playback s h =
        Ends-Quiet (on_control-Quiet env library to_string clear_playback s.playback s) h
    message-Ends (playback_mark name) s h =
        Ends-Quiet (on_control-Quiet env library to_string (playback_mark name) s.playback s) h

    closed-Ends :
        (failed : Bool) (s : ForkSession)
        → Ends called s
        → Ends called (on_closed env library failed s)
    unfolding on_closed
    closed-Ends failed s h =
        let gone : ForkSession = record s { connection = false } in
        let s' : ForkSession = record gone {
          disconnected_at = elim gone.disconnected_at [
            | none ↦ some (env.now gone.trace)
            | some t ↦ some t
          ];
        } in
        let told : ForkSession =
          (if failed && is_connecting s'.state && not s'.reconnecting
            then emit connect_failed [] s'
            else s') in
        event-Ends ws_error told (
          if_ind (Ends called) (failed && is_connecting s'.state && not s'.reconnecting)
            (λ _. Ends-Quiet (still refl) h) (λ _. Ends-Quiet (still refl) h))

    task-Ends :
        (task : Task) (s : ForkSession) → Ends called s → Ends called (run_task env library task s)
    unfolding run_task
    task-Ends tear_down s h = event-Ends teardown s h
    task-Ends (deliver text) s h = Ends-Quiet (deliver_text-Quiet env text s) h
    task-Ends (modify endpoint) s h = Ends-Quiet (apply_modify-Quiet env library endpoint s) h

    posted-Ends :
        (tasks : List Task) (s : ForkSession)
        → Ends called s
        → Ends called (run_posted env library tasks s)
    posted-Ends [] s h = h
    posted-Ends (task ∷ tasks) s h =
        task-Ends task (record s { posted = tasks }) (Ends-Quiet (still refl) h)

    move-Ends :
        (m : Move) (s : ForkSession) → Ends called s → Ends called (move env library to_string m s)
    unfolding move on_connected on_text on_timer pump_session Media.stop
    move-Ends (pushed pcm) s h = Ends-Quiet (push_audio-Quiet pcm s) h
    move-Ends (read room) s h = Ends-Quiet (read_playback-Quiet room s) h
    move-Ends (paused_set paused) s h = Ends-Quiet (still refl) h
    move-Ends (texted text) s h = Ends-Quiet (send_text-Quiet text s) h
    move-Ends (redirected endpoint) s h = Ends-Quiet (modify_endpoint-Quiet endpoint s) h
    move-Ends stopped s h = Ends-Quiet (still refl) h
    move-Ends task_run s h = posted-Ends s.posted s h
    move-Ends ticked s h =
        pump-Ends env library called (apply env library) s
          (λ a t l. apply-Well env library called a t (omega arith)) h
    move-Ends timer_fired s h = event-Ends retry_timer_fired s h
    move-Ends opened s h =
        let a = (on_event s.state ws_connected).0.action in
        let s' : ForkSession = record s { state = (on_event s.state ws_connected).1 } in
        let o : Owes called a s' = react-Owes ws_connected s h in
        opened-Ends a s' (apply env library a s') o (applied-Ends a s' o)
    move-Ends (lost failed) s h = closed-Ends failed s h
    move-Ends (text_received text) s h = message-Ends (parse_server_message library text) s h
    move-Ends (bytes_received bytes) s h = Ends-Quiet (on_binary-Quiet bytes s) h

    moves-Ends :
        (ms : List Move) (s : ForkSession)
        → Ends called s
        → Ends called (moves env library to_string ms s)
    unfolding moves
    moves-Ends [] s h = h
    moves-Ends (m ∷ ms) s h = moves-Ends ms (move env library to_string m s) (move-Ends m s h)

  -- After its start and anything that may happen to it afterwards, in any order: the end of a session
  -- was announced once, and its owner called back once where it asked for that, if the session is
  -- dead; and neither has happened if it is not.
  pub moves_end_once :
      (called : Bool) (params : ForkParams) (tuning : Tuning) (pool : SlabPool) (ring : SpscRing)
      (playback : Option Playback) (ms : List Move)
      → let s =
          moves env library to_string ms
            (started env library called params tuning pool ring playback) in
        (stops s.trace ≡ one_if (is_dead s.state))
        × (finishes s.trace ≡ one_if (is_dead s.state && called))
  unfolding start
  moves_end_once called params tuning pool ring playback ms =
      let s : ForkSession = record (construct params tuning pool ring playback) {
        on_finished = called;
      } in
      let h : Ends called s = record { told = refl } in
      let begun : Ends called (started env library called params tuning pool ring playback) =
        open_connection-Ends env library called (apply env library) s
          (λ a t l. apply-Well env library called a t (omega arith)) h in
      let e = moves-Ends ms (started env library called params tuning pool ring playback) begun in
      (ap (λ x. x.1) e.told, ap (λ x. x.2) e.told)
