-- ===== src/Config.antt =====
-- core/include/audiofork/config.hpp and core/src/config.cpp: the limits of the module, kept sane by
-- `SanitizeConfig`, and in `Url` the parsing of endpoints. `Endpoint`, `AudioFormat`, `MixType` and
-- `ForkParams` of config.hpp are in ForkSession/Ports.antt.
pub mod Url
pub mod Limits
mod Tests
use mod_audio_fork.Common.{
  ℕ, ◌*◌, ◌/◌, ◌%◌, ◌^◌, min, max, Bool, true, false, not, ◌&&◌, ◌||◌, List, [], ◌∷◌, if◌then◌else◌,
  Text, ℤ, pos, max_ℤ, clamp_ℤ, clamp, to_u64,
}
use mod_audio_fork.ForkSession.Ports.{AudioFormat, bytes_per_second}

pub record TlsOptions : Type 0 where
  pub ca_file : Text
  pub cert_file : Text
  pub key_file : Text
  pub verify : Bool

-- Durations in signed milliseconds.
pub record ModuleConfig : Type 0 where
  pub shard_count : ℕ
  pub send_buffer : ℤ
  pub handoff_buffer : ℤ
  pub coalesce_max : ℤ
  pub drain_timeout : ℤ
  pub playback_high_watermark : ℤ
  pub playback_low_watermark : ℤ
  pub global_memory_cap_bytes : ℕ
  pub emergency_buffer : ℤ
  pub reconnect_min : ℤ
  pub reconnect_max : ℤ
  pub slab_size_bytes : ℕ
  pub max_forks_per_call : ℕ
  pub tls : TlsOptions

abbrev pub defaults : ModuleConfig
defaults = record {
  shard_count = 0;
  send_buffer = pos 10000;
  handoff_buffer = pos 1000;
  coalesce_max = pos 100;
  drain_timeout = pos 2000;
  playback_high_watermark = pos 10000;
  playback_low_watermark = pos 2000;
  global_memory_cap_bytes = 1536 * 1024 * 1024;
  emergency_buffer = pos 2000;
  reconnect_min = pos 250;
  reconnect_max = pos 5000;
  slab_size_bytes = 64 * 1024;
  max_forks_per_call = 4;
  tls = record { ca_file = []; cert_file = []; key_file = []; verify = true };
}

abbrev pub max_shards : ℕ
max_shards = 16

abbrev pub min_buffer : ℤ
min_buffer = pos 100

abbrev pub max_buffer : ℤ
max_buffer = pos 60000

abbrev pub min_coalesce : ℤ
min_coalesce = pos 20

-- `std::string::empty`.
abbrev pub is_empty {ℓ} : {A : Type ℓ} → List A → Bool
is_empty [] = true
is_empty (x ∷ xs) = false

-- Half of a client certificate is dropped.
abbrev pub half_a_certificate : TlsOptions → Bool
half_a_certificate tls =
    (is_empty tls.cert_file && not (is_empty tls.key_file))
    || (not (is_empty tls.cert_file) && is_empty tls.key_file)

unfoldable pub sanitize_tls : TlsOptions → TlsOptions
sanitize_tls tls =
    if half_a_certificate tls then record tls { cert_file = []; key_file = [] } else tls

unfoldable pub sanitize_config : ModuleConfig → ModuleConfig
sanitize_config config =
    let send_buffer = clamp_ℤ config.send_buffer min_buffer max_buffer in
    let handoff_buffer = clamp_ℤ config.handoff_buffer min_coalesce send_buffer in
    let high = clamp_ℤ config.playback_high_watermark min_coalesce max_buffer in
    let reconnect_min = max_ℤ config.reconnect_min (pos 1) in
    let slab_size_bytes = max config.slab_size_bytes (4 * 1024) in
    record {
      shard_count = min config.shard_count max_shards;
      send_buffer = send_buffer;
      handoff_buffer = handoff_buffer;
      coalesce_max = clamp_ℤ config.coalesce_max min_coalesce handoff_buffer;
      drain_timeout = max_ℤ config.drain_timeout (pos 0);
      playback_high_watermark = high;
      playback_low_watermark = clamp_ℤ config.playback_low_watermark (pos 0) high;
      global_memory_cap_bytes = max config.global_memory_cap_bytes (slab_size_bytes * 16 % 2 ^ 64);
      emergency_buffer = clamp_ℤ config.emergency_buffer min_coalesce send_buffer;
      reconnect_min = reconnect_min;
      reconnect_max = max_ℤ config.reconnect_max reconnect_min;
      slab_size_bytes = slab_size_bytes;
      max_forks_per_call = clamp config.max_forks_per_call 1 8;
      tls = sanitize_tls config.tls;
    }

-- `AudioFormat::BytesForDuration`, in `std::size_t`.
unfoldable pub bytes_for_duration : AudioFormat → ℤ → ℕ
bytes_for_duration f duration = bytes_per_second f * to_u64 duration % 2 ^ 64 / 1000
