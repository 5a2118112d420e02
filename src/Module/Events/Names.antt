-- ===== src/Module/Events/Names.antt =====
-- No two kinds of event of module/mod_audio_fork.cpp have one name.
use mod_audio_fork.Common.{
  ◌≡◌, refl, sym, ◌∙◌, ap, Option, none, some, Text, codes, same_text, if◌then◌else◌,
}
use mod_audio_fork.ForkSession.Ports.{
  ForkEventType, connect, connect_failed, start_failed, reconnecting, resume, overrun, degraded,
  json, json_error, disconnect, error, stop, playback_start, playback_stop, playback_cleared, mark,
}
use mod_audio_fork.Module.Events.{event_name}

-- The kind of an event by its name.
abbrev kind_of : Text → Option ForkEventType
kind_of t =
    if same_text t (codes "connect")
    then some connect
    else if same_text t (codes "connect_failed")
    then some connect_failed
    else if same_text t (codes "start_failed")
    then some start_failed
    else if same_text t (codes "reconnecting")
    then some reconnecting
    else if same_text t (codes "resume")
    then some resume
    else if same_text t (codes "overrun")
    then some overrun
    else if same_text t (codes "degraded")
    then some degraded
    else if same_text t (codes "json")
    then some json
    else if same_text t (codes "json_error")
    then some json_error
    else if same_text t (codes "disconnect")
    then some disconnect
    else if same_text t (codes "stop")
    then some stop
    else if same_text t (codes "error")
    then some error
    else if same_text t (codes "playback_start")
    then some playback_start
    else if same_text t (codes "playback_stop")
    then some playback_stop
    else if same_text t (codes "playback_cleared")
    then some playback_cleared
    else if same_text t (codes "mark")
    then some mark
    else none

kind_of-event_name : (k : ForkEventType) → kind_of (event_name k) ≡ some k
unfolding event_name
kind_of-event_name connect = refl
kind_of-event_name connect_failed = refl
kind_of-event_name start_failed = refl
kind_of-event_name reconnecting = refl
kind_of-event_name resume = refl
kind_of-event_name overrun = refl
kind_of-event_name degraded = refl
kind_of-event_name json = refl
kind_of-event_name json_error = refl
kind_of-event_name disconnect = refl
kind_of-event_name stop = refl
kind_of-event_name error = refl
kind_of-event_name playback_start = refl
kind_of-event_name playback_stop = refl
kind_of-event_name playback_cleared = refl
kind_of-event_name mark = refl

-- A subscriber can tell the kinds of event apart by their names.
pub event_name_injective : (k l : ForkEventType) → event_name k ≡ event_name l → k ≡ l
event_name_injective k l e =
    some-injective (sym (kind_of-event_name k) ∙ ap kind_of e ∙ kind_of-event_name l)
  where
    some-injective : some k ≡ some l → k ≡ l
    some-injective h = cc
