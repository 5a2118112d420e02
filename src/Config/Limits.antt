-- ===== src/Config/Limits.antt =====
-- What `SanitizeConfig` of core/src/config.cpp promises.
use mod_audio_fork.Common.{
  ◌*◌, ◌%◌, ◌^◌, ◌≤◌, ◌≡◌, subst, ◌↔◌, min, max, ℤ, pos, ◌≤ℤ◌, max_ℤ, clamp_ℤ, clamp, arith,
}
use mod_audio_fork.Config.{
  TlsOptions, ModuleConfig, max_shards, min_buffer, max_buffer, min_coalesce, is_empty,
  sanitize_tls, sanitize_config,
}

-- The bounds that the rest of the program takes for granted.
pub record IsSane (c : ModuleConfig) : Type 0 where
  pub shards : c.shard_count ≤ max_shards
  pub send : (min_buffer ≤ℤ c.send_buffer) × (c.send_buffer ≤ℤ max_buffer)
  pub handoff : (min_coalesce ≤ℤ c.handoff_buffer) × (c.handoff_buffer ≤ℤ c.send_buffer)
  pub coalesce : (min_coalesce ≤ℤ c.coalesce_max) × (c.coalesce_max ≤ℤ c.handoff_buffer)
  pub emergency : (min_coalesce ≤ℤ c.emergency_buffer) × (c.emergency_buffer ≤ℤ c.send_buffer)
  pub drain : pos 0 ≤ℤ c.drain_timeout
  pub high : (min_coalesce ≤ℤ c.playback_high_watermark) × (c.playback_high_watermark ≤ℤ max_buffer)
  pub low :
      (pos 0 ≤ℤ c.playback_low_watermark) × (c.playback_low_watermark ≤ℤ c.playback_high_watermark)
  pub backoff : (pos 1 ≤ℤ c.reconnect_min) × (c.reconnect_min ≤ℤ c.reconnect_max)
  pub slab : 4 * 1024 ≤ c.slab_size_bytes
  pub cap : c.slab_size_bytes * 16 % 2 ^ 64 ≤ c.global_memory_cap_bytes
  pub forks : (1 ≤ c.max_forks_per_call) × (c.max_forks_per_call ≤ 8)
  pub identity : is_empty c.tls.cert_file ≡ is_empty c.tls.key_file

clamp_bounds : (v lo hi : ℤ) → lo ≤ℤ hi → (lo ≤ℤ clamp_ℤ v lo hi) × (clamp_ℤ v lo hi ≤ℤ hi)
clamp_bounds v lo hi h = ground arith

clamp_within : (v lo hi : ℤ) → lo ≤ℤ v → v ≤ℤ hi → clamp_ℤ v lo hi ≡ v
clamp_within v lo hi h k = ground arith

max_ge : (a b : ℤ) → b ≤ℤ max_ℤ a b
max_ge a b = ground arith

max_of_ge : (a b : ℤ) → b ≤ℤ a → max_ℤ a b ≡ a
max_of_ge a b h = ground arith

sanitize_tls-identity :
    (t : TlsOptions) → is_empty (sanitize_tls t).cert_file ≡ is_empty (sanitize_tls t).key_file
unfolding sanitize_tls
sanitize_tls-identity t = ground arith

sanitize_tls-same :
    (t : TlsOptions) → is_empty t.cert_file ≡ is_empty t.key_file → sanitize_tls t ≡ t
unfolding sanitize_tls
sanitize_tls-same t h = ground arith

-- Every limit that `SanitizeConfig` returns is within its bounds: the buffers are ordered, no
-- interval is inverted, the cap has room for sixteen slabs (modulo 2 ^ 64), and there is a client
-- certificate exactly when there is its key.
pub sanitize_config-IsSane : (c : ModuleConfig) → IsSane (sanitize_config c)
unfolding sanitize_config
sanitize_config-IsSane c =
    let send = clamp_bounds c.send_buffer min_buffer max_buffer (omega arith) in
    let s = clamp_ℤ c.send_buffer min_buffer max_buffer in
    let handoff = clamp_bounds c.handoff_buffer min_coalesce s (omega arith) in
    let h = clamp_ℤ c.handoff_buffer min_coalesce s in
    let high = clamp_bounds c.playback_high_watermark min_coalesce max_buffer (omega arith) in
    record {
      shards = omega arith;
      send = send;
      handoff = handoff;
      coalesce = clamp_bounds c.coalesce_max min_coalesce h (omega arith);
      emergency = clamp_bounds c.emergency_buffer min_coalesce s (omega arith);
      drain = max_ge c.drain_timeout (pos 0);
      high = high;
      low =
          clamp_bounds c.playback_low_watermark (pos 0)
            (clamp_ℤ c.playback_high_watermark min_coalesce max_buffer) (omega arith);
      backoff =
          (max_ge c.reconnect_min (pos 1), max_ge c.reconnect_max (max_ℤ c.reconnect_min (pos 1)));
      slab = omega arith;
      cap = omega arith;
      forks = ground arith;
      identity = sanitize_tls-identity c.tls;
    }

sanitize_config-sane : (c : ModuleConfig) → IsSane c → sanitize_config c ≡ c
unfolding sanitize_config
sanitize_config-sane c v =
    let send : clamp_ℤ c.send_buffer min_buffer max_buffer ≡ c.send_buffer =
      clamp_within c.send_buffer min_buffer max_buffer v.send.0 v.send.1 in
    let handoff : clamp_ℤ c.handoff_buffer min_coalesce c.send_buffer ≡ c.handoff_buffer =
      clamp_within c.handoff_buffer min_coalesce c.send_buffer v.handoff.0 v.handoff.1 in
    let high : clamp_ℤ c.playback_high_watermark min_coalesce max_buffer
        ≡ c.playback_high_watermark =
      clamp_within c.playback_high_watermark min_coalesce max_buffer v.high.0 v.high.1 in
    let low : clamp_ℤ c.playback_low_watermark (pos 0) c.playback_high_watermark
        ≡ c.playback_low_watermark =
      clamp_within c.playback_low_watermark (pos 0) c.playback_high_watermark v.low.0 v.low.1 in
    let coalesce : clamp_ℤ c.coalesce_max min_coalesce c.handoff_buffer ≡ c.coalesce_max =
      clamp_within c.coalesce_max min_coalesce c.handoff_buffer v.coalesce.0 v.coalesce.1 in
    let emergency : clamp_ℤ c.emergency_buffer min_coalesce c.send_buffer ≡ c.emergency_buffer =
      clamp_within c.emergency_buffer min_coalesce c.send_buffer v.emergency.0 v.emergency.1 in
    let first : max_ℤ c.reconnect_min (pos 1) ≡ c.reconnect_min =
      max_of_ge c.reconnect_min (pos 1) v.backoff.0 in
    let last : max_ℤ c.reconnect_max c.reconnect_min ≡ c.reconnect_max =
      max_of_ge c.reconnect_max c.reconnect_min v.backoff.1 in
    let drain : max_ℤ c.drain_timeout (pos 0) ≡ c.drain_timeout =
      max_of_ge c.drain_timeout (pos 0) v.drain in
    let slab : max c.slab_size_bytes (4 * 1024) ≡ c.slab_size_bytes = omega arith in
    let cap : max c.global_memory_cap_bytes (c.slab_size_bytes * 16 % 2 ^ 64)
        ≡ c.global_memory_cap_bytes =
      omega arith in
    let shards : min c.shard_count max_shards ≡ c.shard_count = omega arith in
    let forks : clamp c.max_forks_per_call 1 8 ≡ c.max_forks_per_call = ground arith in
    rw (
      send,
      handoff,
      high,
      low,
      coalesce,
      emergency,
      first,
      last,
      drain,
      slab,
      cap,
      shards,
      forks,
      sanitize_tls-same c.tls v.identity,
    )

-- A configuration is within its bounds exactly when `SanitizeConfig` leaves it as it is.
pub sanitize_config_fixes : (c : ModuleConfig) → IsSane c ↔ (sanitize_config c ≡ c)
sanitize_config_fixes c = (sanitize_config-sane c, λ e. subst IsSane e (sanitize_config-IsSane c))
