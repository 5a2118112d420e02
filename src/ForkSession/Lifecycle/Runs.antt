-- ===== src/ForkSession/Lifecycle/Runs.antt =====
-- The whole life of a session of core/src/fork_session.cpp: its start, and whatever the shard, the
-- connection, the timer and other threads do to it afterwards, in any order.
pub mod Once
use mod_audio_fork.Common.{
  ℕ, ◌<◌, ◌≤◌, ◌≡◌, refl, ap, Bool, false, not, ◌&&◌, Option, none, some, List, [], ◌∷◌,
  if◌then◌else◌, if_ind, Text, arith,
}
use mod_audio_fork.SlabPool.{SlabPool}
use mod_audio_fork.SpscRing.{SpscRing}
use mod_audio_fork.SessionState.{
  SessionEvent, SessionAction, no_action, notify_connected, schedule_retry, begin_connect,
  begin_drain, begin_close, abandon_socket, finalize, on_event, ws_connected, ws_error, teardown,
  retry_timer_fired,
}
use mod_audio_fork.Protocol.{
  JsonLibrary, ServerMessage, start_playback, clear_playback, playback_mark, server_disconnect,
  relay_to_app, invalid_message, parse_server_message,
}
use mod_audio_fork.ForkSession.{ForkSession, Tuning, Playback, construct}
use mod_audio_fork.ForkSession.Ports.{
  Environment, ForkParams, Endpoint, Task, tear_down, deliver, modify, connect_failed, disconnect,
}
use mod_audio_fork.ForkSession.Media
use mod_audio_fork.ForkSession.Media.{
  push_audio, read_playback, set_paused, send_text, modify_endpoint,
}
use mod_audio_fork.ForkSession.Outbound.{emit}
use mod_audio_fork.ForkSession.Inbound.{on_binary}
use mod_audio_fork.ForkSession.Lifecycle.{
  is_connecting, react, close_connection, apply, on_session_event, start, pump_session,
  on_connected, on_closed, on_message, on_text, run_task, run_posted, on_timer,
}
use mod_audio_fork.ForkSession.Lifecycle.Finish.{finishes}
use mod_audio_fork.ForkSession.Lifecycle.Fuel.{rank-bounded}
use mod_audio_fork.ForkSession.Lifecycle.Quiet.{stops, still}
use mod_audio_fork.ForkSession.Lifecycle.Quiet.Network.{deliver_text-Quiet, apply_modify-Quiet}
use mod_audio_fork.ForkSession.Lifecycle.Quiet.Calls.{
  on_binary-Quiet, on_control-Quiet, close_connection-Quiet, push_audio-Quiet, read_playback-Quiet,
  send_text-Quiet, modify_endpoint-Quiet,
}
use mod_audio_fork.ForkSession.Lifecycle.Ends.{
  is_dead, one_if, Ends, Ends-Quiet, Owes, react-Owes, Well,
}
use mod_audio_fork.ForkSession.Lifecycle.Ends.Apply.{pump-Ends, open_connection-Ends, apply-Well}

-- One thing that happens to a session: a call of another thread, or the shard's thread at work.
pub data Move : Type 0 where
  pushed : (pcm : List ℕ) → Move
  read : (room : ℕ) → Move
  paused_set : (paused : Bool) → Move
  texted : (text : Text) → Move
  redirected : (endpoint : Endpoint) → Move
  stopped task_run ticked timer_fired opened : Move
  lost : (failed : Bool) → Move
  text_received : (text : Text) → Move
  bytes_received : (bytes : List ℕ) → Move

module _ (env : Environment) {J : Type 0} (library : JsonLibrary J) where
  -- A session as it is created and started, with a callback for its end or without.
  abbrev pub started :
      (called : Bool) → ForkParams → Tuning → SlabPool → SpscRing → Option Playback → ForkSession
  started called params tuning pool ring playback =
      start env library
        (record (construct params tuning pool ring playback) { on_finished = called })

module _ (env : Environment) {J : Type 0} (library : JsonLibrary J) (to_string : ℕ → Text) where
  unfoldable pub move : Move → ForkSession → ForkSession
  unfolding push_audio read_playback send_text modify_endpoint run_task pump_session on_timer
      on_connected on_closed on_text on_binary
  move (pushed pcm) s = (push_audio pcm s).1
  move (read room) s = (read_playback room s).1
  move (paused_set paused) s = set_paused paused s
  move (texted text) s = (send_text text s).1
  move (redirected endpoint) s = (modify_endpoint endpoint s).1
  move stopped s = Media.stop s
  move task_run s = run_posted env library s.posted s
  move ticked s = pump_session env library s
  move timer_fired s = on_timer env library s
  move opened s = on_connected env library s
  move (lost failed) s = on_closed env library failed s
  move (text_received text) s = on_text env library to_string text s
  move (bytes_received bytes) s = on_binary bytes s

  unfoldable pub moves : List Move → ForkSession → ForkSession
  unfolding move
  moves [] s = s
  moves (m ∷ ms) s = moves ms (move m s)
