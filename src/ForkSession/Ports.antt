-- ===== src/ForkSession/Ports.antt =====
-- The interfaces of core/include/audiofork/ports.hpp as what a session asks of them, and the
-- parameters of a fork of core/include/audiofork/config.hpp.
use mod_audio_fork.Common.{ℕ, ◌*◌, Bool, List, Text}

pub data MixType : Type 0 where
  mono mixed stereo : MixType

pub record AudioFormat : Type 0 where
  pub sample_rate : ℕ
  pub channels : ℕ

abbrev pub bytes_per_second : AudioFormat → ℕ
bytes_per_second f = f.sample_rate * f.channels * 2

pub record Endpoint : Type 0 where
  pub host : Text
  pub port : ℕ
  pub path : Text
  pub tls : Bool

pub record ForkParams : Type 0 where
  pub call_uuid : Text
  pub fork_id : Text
  pub endpoint : Endpoint
  pub format : AudioFormat
  pub mix_type : MixType
  pub metadata_json : Text

pub data ForkEventType : Type 0 where
  connect connect_failed start_failed reconnecting resume overrun degraded json : ForkEventType
  json_error disconnect error stop playback_start playback_stop : ForkEventType
  playback_cleared mark : ForkEventType

pub record ForkEvent : Type 0 where
  pub type : ForkEventType
  pub call_uuid : Text
  pub fork_id : Text
  pub detail : Text
  pub gap_ms : ℕ
  pub dropped_ms : ℕ

-- A call of a port, with what it returned where the session looks at that.
pub data Effect : Type 0 where
  connected : (endpoint : Endpoint) (max_queued_bytes : ℕ) (made : Bool) → Effect
  sent_text : (text : Text) (taken : Bool) → Effect
  sent_binary : (bytes : List ℕ) (taken : Bool) → Effect
  set_receive_paused : (paused : Bool) → Effect
  closed : Effect
  emitted : ForkEvent → Effect
  scheduled : (delay : ℕ) → Effect
  finished : Effect

-- What other threads hand to the shard.
pub data Task : Type 0 where
  tear_down : Task
  deliver : (text : Text) → Task
  modify : (endpoint : Endpoint) → Task

-- The answers of a connection, of `Connect`, of the clock (in nanoseconds) and of the backoff (in
-- milliseconds, by the delays drawn since its reset), given all that was asked before. A port calls
-- no handler before the call of it returns.
pub record Environment : Type 0 where
  pub connects : List Effect → Bool
  pub takes_text : List Effect → Text → Bool
  pub takes_binary : List Effect → List ℕ → Bool
  pub now : List Effect → ℕ
  pub delay : (drawn : ℕ) → List Effect → ℕ
