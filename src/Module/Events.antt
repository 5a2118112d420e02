-- ===== src/Module/Events.antt =====
-- The events of module/mod_audio_fork.cpp as FreeSWITCH gets them: `EventName` and `FsEventSink`.
pub mod Names
use mod_audio_fork.Common.{ℕ, ◌==◌, Bool, List, [], ◌∷◌, ◌++◌, if◌then◌else◌, Text, codes}
use mod_audio_fork.Config.{is_empty}
use mod_audio_fork.ForkSession.Ports.{
  ForkEventType, connect, connect_failed, start_failed, reconnecting, resume, overrun, degraded,
  json, json_error, disconnect, error, stop, playback_start, playback_stop, playback_cleared, mark,
  ForkEvent,
}

unfoldable pub event_name : ForkEventType → Text
event_name connect = codes "connect"
event_name connect_failed = codes "connect_failed"
event_name start_failed = codes "start_failed"
event_name reconnecting = codes "reconnecting"
event_name resume = codes "resume"
event_name overrun = codes "overrun"
event_name degraded = codes "degraded"
event_name json = codes "json"
event_name json_error = codes "json_error"
event_name disconnect = codes "disconnect"
event_name stop = codes "stop"
event_name error = codes "error"
event_name playback_start = codes "playback_start"
event_name playback_stop = codes "playback_stop"
event_name playback_cleared = codes "playback_cleared"
event_name mark = codes "mark"

-- The headers of an event, where a detail, a gap and a loss have one only if there is any; `%llu` is
-- how a number is written.
unfoldable pub headers : (llu : ℕ → Text) → ForkEvent → List (Text × Text)
headers llu e =
    (codes "Unique-ID", e.call_uuid)
    ∷ (codes "Fork-ID", e.fork_id)
    ∷ ((if is_empty e.detail then [] else (codes "Detail", e.detail) ∷ [])
        ++ ((if e.gap_ms == 0 then [] else (codes "Gap-Ms", llu e.gap_ms) ∷ [])
            ++ (if e.dropped_ms == 0 then [] else (codes "Dropped-Ms", llu e.dropped_ms) ∷ [])))

abbrev pub event_subclass_prefix : Text
event_subclass_prefix = codes "mod_audio_fork::"

-- The subclass of an event.
unfoldable pub subclass : ForkEvent → Text
unfolding event_name
subclass e = event_subclass_prefix ++ event_name e.type
