-- ===== src/ForkSession/Stats.antt =====
-- `ForkSession::Stats` and `ForkSession::stats` of core/src/fork_session.cpp.
use mod_audio_fork.Common.{ℕ, Bool}
use mod_audio_fork.ForkSession.{ForkSession}

pub record Stats : Type 0 where
  pub media_dropped_bytes : ℕ
  pub buffer_dropped_bytes : ℕ
  pub sent_bytes : ℕ
  pub reconnects : ℕ
  pub unsupported_inbound : ℕ
  pub buffered_bytes : ℕ
  pub playback_bytes_received : ℕ
  pub playback_bytes_played : ℕ
  pub playback_underruns : ℕ
  pub barge_ins : ℕ
  pub playback_buffered_bytes : ℕ
  pub pending_texts_dropped : ℕ
  pub playback_bytes_dropped : ℕ
  pub paused_bytes : ℕ
  pub degraded : Bool
  pub paused : Bool

unfoldable pub stats : ForkSession → Stats
stats s = record {
  media_dropped_bytes = s.media_dropped_bytes;
  buffer_dropped_bytes = s.buffer_dropped_bytes;
  sent_bytes = s.sent_bytes;
  reconnects = s.reconnects;
  unsupported_inbound = s.unsupported_inbound;
  buffered_bytes = s.buffered_bytes;
  playback_bytes_received = s.playback_bytes_received;
  playback_bytes_played = s.playback_bytes_played;
  playback_underruns = s.playback_underruns;
  barge_ins = s.barge_ins;
  playback_buffered_bytes = s.playback_buffered_bytes;
  pending_texts_dropped = s.pending_texts_dropped;
  playback_bytes_dropped = s.playback_bytes_dropped;
  paused_bytes = s.paused_bytes;
  degraded = s.degraded;
  paused = s.paused;
}
