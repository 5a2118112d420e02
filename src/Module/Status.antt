-- ===== src/Module/Status.antt =====
-- The counters that `audio_fork_status_api` of module/mod_audio_fork.cpp adds up over all forks.
pub mod Order
pub mod Sums
use mod_audio_fork.Common.{ℕ, ◌+◌, max, Bool, List, [], ◌∷◌, if◌then◌else◌, length, Text, add64}
use mod_audio_fork.ForkSession.{ForkSession}
use mod_audio_fork.ForkSession.Stats
use mod_audio_fork.ForkSession.Stats.{Stats}

pub record Totals : Type 0 where
  pub calls : ℕ
  pub forks : ℕ
  pub degraded_forks : ℕ
  pub paused_forks : ℕ
  pub media_dropped : ℕ
  pub buffer_dropped : ℕ
  pub sent : ℕ
  pub reconnects : ℕ
  pub buffered : ℕ
  pub buffered_max : ℕ
  pub playback_played : ℕ
  pub playback_dropped : ℕ
  pub playback_buffered : ℕ
  pub playback_buffered_max : ℕ
  pub barge_ins : ℕ
  pub texts_dropped : ℕ

abbrev pub no_totals : Totals
no_totals = record {
  calls = 0;
  forks = 0;
  degraded_forks = 0;
  paused_forks = 0;
  media_dropped = 0;
  buffer_dropped = 0;
  sent = 0;
  reconnects = 0;
  buffered = 0;
  buffered_max = 0;
  playback_played = 0;
  playback_dropped = 0;
  playback_buffered = 0;
  playback_buffered_max = 0;
  barge_ins = 0;
  texts_dropped = 0;
}

abbrev pub one_if : Bool → ℕ
one_if b = if b then 1 else 0

-- One fork.
unfoldable pub tally : Totals → Stats → Totals
tally t s = record t {
  media_dropped = add64 t.media_dropped s.media_dropped_bytes;
  buffer_dropped = add64 t.buffer_dropped s.buffer_dropped_bytes;
  sent = add64 t.sent s.sent_bytes;
  reconnects = add64 t.reconnects s.reconnects;
  buffered = add64 t.buffered s.buffered_bytes;
  buffered_max = max t.buffered_max s.buffered_bytes;
  playback_played = add64 t.playback_played s.playback_bytes_played;
  playback_dropped = add64 t.playback_dropped s.playback_bytes_dropped;
  playback_buffered = add64 t.playback_buffered s.playback_buffered_bytes;
  playback_buffered_max = max t.playback_buffered_max s.playback_buffered_bytes;
  barge_ins = add64 t.barge_ins s.barge_ins;
  texts_dropped = add64 t.texts_dropped s.pending_texts_dropped;
  degraded_forks = add64 t.degraded_forks (one_if s.degraded);
  paused_forks = add64 t.paused_forks (one_if s.paused);
}

unfoldable pub tally_all : Totals → List Stats → Totals
unfolding tally
tally_all t [] = t
tally_all t (s ∷ ss) = tally_all (tally t s) ss

-- One call: its forks are counted, then each is added.
unfoldable pub tally_call : Totals → List Stats → Totals
unfolding tally_all
tally_call t sessions = tally_all (record t { forks = add64 t.forks (length sessions) }) sessions

unfoldable pub tally_calls : Totals → List (List Stats) → Totals
unfolding tally_call
tally_calls t [] = t
tally_calls t (c ∷ cs) = tally_calls (tally_call t c) cs

-- The loops over the registry, in the order in which it yields its calls; their names play no part.
unfoldable pub status : List (List Stats) → Totals
unfolding tally_calls
status calls = tally_calls (record no_totals { calls = length calls }) calls
