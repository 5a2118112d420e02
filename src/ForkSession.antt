-- ===== src/ForkSession.antt =====
-- core/include/audiofork/fork_session.hpp, with what core/include/audiofork/ports.hpp and
-- core/include/audiofork/config.hpp declare for it: the data of one fork. The functions of
-- core/src/fork_session.cpp are in the modules below, a part of the file each.
pub mod Ports
pub mod Media
pub mod Outbound
pub mod Texts
pub mod Inbound
pub mod Lifecycle
pub mod Stats
pub mod Samples
use mod_audio_fork.Common.{
  ℕ, ◌+◌, ◌-◌, ◌*◌, ◌/◌, ◌==◌, Bool, true, false, ◌||◌, Option, none, some, List, [], ◌∷◌,
  if◌then◌else◌, Text,
}
use mod_audio_fork.SlabPool.{SlabPool}
use mod_audio_fork.SlabQueue
use mod_audio_fork.SessionState.{SessionState, connecting}
use mod_audio_fork.SpscRing
use mod_audio_fork.SpscRing.{SpscRing}
use mod_audio_fork.SendBuffer.{SendBuffer}
use mod_audio_fork.JitterBuffer
use mod_audio_fork.JitterBuffer.{JitterBuffer}
use mod_audio_fork.ForkSession.Ports.{ForkParams, Endpoint, Effect, Task}

-- Durations in milliseconds. The options of the backoff are with the delays, in `Environment`.
pub record Tuning : Type 0 where
  pub send_cap_bytes : ℕ
  pub handoff_bytes : ℕ
  pub coalesce_max_bytes : ℕ
  pub emergency_cap_bytes : ℕ
  pub drain_timeout : ℕ
  pub playback_high_watermark_bytes : ℕ
  pub playback_low_watermark_bytes : ℕ
  pub playback_handoff_bytes : ℕ

-- `playback_` and `playback_ring_`: a session has both or neither.
pub record Playback : Type 0 where
  pub buffer : JitterBuffer
  pub ring : SpscRing

-- The fields of the class. `net_`, `events_` and `clock_` are the trace of what was asked of them,
-- newest first, from which `Environment` answers; `posted` are the tasks that `Post` was given and
-- that have not run, oldest first; `pool` is what the buffers' handles of it refer to. `connection` says
-- whether there is one, `on_finished` whether the callback is still to be called, `drawn` how many
-- delays were taken from the backoff since its last reset.
pub record ForkSession : Type 0 where
  pub params : ForkParams
  pub tuning : Tuning
  pub trace : List Effect
  pub posted : List Task
  pub pool : SlabPool
  pub state : SessionState
  pub ring : SpscRing
  pub buffer : SendBuffer
  pub playback : Option Playback
  pub playback_generation : ℕ
  pub media_playback_generation : ℕ
  pub playback_rate : ℕ
  pub playback_channels : ℕ
  pub playback_started : Bool
  pub receive_paused : Bool
  pub drawn : ℕ
  pub connection : Bool
  pub on_finished : Bool
  pub pending_texts : List Text
  pub reconnecting : Bool
  pub dropping : Bool
  pub endpoint_changed : Bool
  pub pool_starved : Bool
  pub paused : Bool
  pub bye_sent : Bool
  pub disconnected_at : Option ℕ
  pub drain_deadline : Option ℕ
  pub dropped_since_resume : ℕ
  pub media_dropped_bytes : ℕ
  pub buffer_dropped_bytes : ℕ
  pub sent_bytes : ℕ
  pub reconnects : ℕ
  pub unsupported_inbound : ℕ
  pub buffered_bytes : ℕ
  pub playback_bytes_received : ℕ
  pub playback_bytes_played : ℕ
  pub playback_underruns : ℕ
  pub barge_ins : ℕ
  pub playback_buffered_bytes : ℕ
  pub pending_texts_dropped : ℕ
  pub playback_bytes_dropped : ℕ
  pub paused_bytes : ℕ
  pub degraded : Bool

-- The constructor, once the rings are made.
abbrev pub construct : ForkParams → Tuning → SlabPool → SpscRing → Option Playback → ForkSession
construct params tuning pool ring playback = record {
  params = params;
  tuning = tuning;
  trace = [];
  posted = [];
  pool = pool;
  state = connecting;
  ring = ring;
  buffer = record { queue = SlabQueue.empty; cap_bytes = tuning.send_cap_bytes };
  playback = playback;
  playback_generation = 0;
  media_playback_generation = 0;
  playback_rate = elim playback [ none ↦ 0 | some b ↦ params.format.sample_rate ];
  playback_channels = elim playback [ none ↦ 0 | some b ↦ 1 ];
  playback_started = false;
  receive_paused = false;
  drawn = 0;
  connection = false;
  on_finished = false;
  pending_texts = [];
  reconnecting = false;
  dropping = false;
  endpoint_changed = false;
  pool_starved = false;
  paused = false;
  bye_sent = false;
  disconnected_at = none;
  drain_deadline = none;
  dropped_since_resume = 0;
  media_dropped_bytes = 0;
  buffer_dropped_bytes = 0;
  sent_bytes = 0;
  reconnects = 0;
  unsupported_inbound = 0;
  buffered_bytes = 0;
  playback_bytes_received = 0;
  playback_bytes_played = 0;
  playback_underruns = 0;
  barge_ins = 0;
  playback_buffered_bytes = 0;
  pending_texts_dropped = 0;
  playback_bytes_dropped = 0;
  paused_bytes = 0;
  degraded = false;
}

-- Playback as the tuning asks for it, or none asked for; none where its ring cannot be made.
abbrev pub create_playback : Tuning → Option (Option Playback)
create_playback tuning =
    if tuning.playback_high_watermark_bytes == 0 || tuning.playback_handoff_bytes == 0
    then some none
    else elim (SpscRing.create tuning.playback_handoff_bytes) [
      | none ↦ none
      | some ring ↦ some (
          some (record {
            buffer = JitterBuffer.create (tuning.playback_high_watermark_bytes * 2);
            ring = ring;
          }))
    ]

unfoldable pub create : ForkParams → Tuning → SlabPool → Option ForkSession
create params tuning pool =
    if tuning.send_cap_bytes == 0 || tuning.handoff_bytes == 0 || tuning.coalesce_max_bytes == 0
    then none
    else elim (SpscRing.create tuning.handoff_bytes) [
      | none ↦ none
      | some ring ↦ elim (create_playback tuning) [
        | none ↦ none
        | some playback ↦ some (construct params tuning pool ring playback)
      ]
    ]

-- `MinimumSlabs`.
unfoldable pub minimum_slabs : Tuning → (slab_bytes : ℕ) → ℕ
minimum_slabs tuning slab_bytes =
    if slab_bytes == 0 then 0 else (tuning.coalesce_max_bytes + slab_bytes - 1) / slab_bytes + 1
