-- ===== src/Module/Settings.antt =====
-- The settings of module/mod_audio_fork.cpp: `LoadConfig`, `ParseMixType` and `MakeTuning`.
pub mod Sane
pub mod Tuned
use mod_audio_fork.Common.{
  ℕ, zero, suc, ◌+◌, ◌-◌, ◌*◌, ◌%◌, ◌^◌, ◌==◌, max, Bool, true, false, not, ◌&&◌, ◌||◌, Option,
  none, some, List, [], ◌∷◌, ◌++◌, if◌then◌else◌, ltb, leb, Text, codes, same_text, ℤ, pos, negsuc,
  pos_part,
}
use mod_audio_fork.Config.{
  ModuleConfig, TlsOptions, defaults, sanitize_config, bytes_for_duration, half_a_certificate,
}
use mod_audio_fork.ForkSession.{Tuning}
use mod_audio_fork.ForkSession.Ports.{MixType, mono, mixed, stereo, AudioFormat}

-- `isspace`.
abbrev is_space : ℕ → Bool
is_space c = c == b' ' || (leb 9 c && leb c 13)

abbrev is_digit : ℕ → Bool
is_digit c = leb b'0' c && leb c b'9'

unfoldable pub digits_value : (value : ℕ) → Text → ℕ
digits_value value [] = value
digits_value value (c ∷ cs) =
    let rest = digits_value (value * 10 + (c - b'0')) cs in if is_digit c then rest else value

abbrev negated : ℕ → ℤ
negated zero = pos 0
negated (suc n) = negsuc n

-- `atoi` of the C library, of a number that is an `int`.
unfoldable pub atoi : Text → ℤ
unfolding digits_value
atoi [] = pos 0
atoi (c ∷ cs) =
    let rest = atoi cs in
    if is_space c
    then rest
    else if c == b'-'
    then negated (digits_value 0 cs)
    else if c == b'+'
    then pos (digits_value 0 cs)
    else pos (digits_value 0 (c ∷ cs))

-- `strcasecmp` is zero.
abbrev lower : ℕ → ℕ
lower c = if leb b'A' c && leb c b'Z' then c + 32 else c

unfoldable pub same_word : Text → Text → Bool
same_word [] [] = true
same_word (x ∷ xs) (y ∷ ys) = (lower x == lower y) && same_word xs ys
same_word _ _ = false

-- A number that an `int` holds.
abbrev pub is_int : ℤ → Bool
is_int (pos n) = ltb n (2 ^ 31)
is_int (negsuc n) = ltb n (2 ^ 31)

-- `number * 1000`.
abbrev pub thousandfold : ℤ → ℤ
thousandfold (pos n) = pos (n * 1000)
thousandfold (negsuc n) = negsuc (n * 1000 + 999)

-- `std::max(number, least)` as a size.
abbrev at_least : ℕ → ℤ → ℕ
at_least least number = max (pos_part number) least

-- The params of `tls`.
unfoldable pub set_tls : (Text → Bool) → (name value : Text) → TlsOptions → TlsOptions
unfolding same_word
set_tls switch_true name value tls =
    if same_word name (codes "tls-ca-file")
    then record tls { ca_file = value }
    else if same_word name (codes "tls-cert-file")
    then record tls { cert_file = value }
    else if same_word name (codes "tls-key-file")
    then record tls { key_file = value }
    else if same_word name (codes "tls-verify")
    then record tls { verify = switch_true value }
    else tls

-- One `param`; `switch_true` is FreeSWITCH's. None where C++ leaves undefined what happens: `atoi` of a
-- number that is no `int`, or a product of `int`s that is none.
unfoldable pub set_param :
    (switch_true : Text → Bool) → (name value : Text) → ModuleConfig → Option ModuleConfig
unfolding atoi same_word set_tls
set_param switch_true name value config =
    let number = atoi value in
    if not (is_int number)
    then none
    else if same_word name (codes "shard-count")
    then some (record config { shard_count = at_least 0 number })
    else if same_word name (codes "send-buffer-seconds")
    then (if is_int (thousandfold number)
        then some (record config { send_buffer = thousandfold number })
        else none)
    else if same_word name (codes "playback-high-watermark-ms")
    then some (record config { playback_high_watermark = number })
    else if same_word name (codes "playback-low-watermark-ms")
    then some (record config { playback_low_watermark = number })
    else if same_word name (codes "coalesce-max-ms")
    then some (record config { coalesce_max = number })
    else if same_word name (codes "emergency-buffer-seconds")
    then (if is_int (thousandfold number)
        then some (record config { emergency_buffer = thousandfold number })
        else none)
    else if same_word name (codes "global-memory-cap-mb")
    then some (record config { global_memory_cap_bytes = at_least 1 number * 1024 * 1024 % 2 ^ 64 })
    else if same_word name (codes "reconnect-backoff-min-ms")
    then some (record config { reconnect_min = number })
    else if same_word name (codes "reconnect-backoff-max-ms")
    then some (record config { reconnect_max = number })
    else if same_word name (codes "max-forks-per-call")
    then some (record config { max_forks_per_call = at_least 1 number })
    else some (record config { tls = set_tls switch_true name value config.tls })

unfoldable pub set_params : (Text → Bool) → List (Text × Text) → ModuleConfig → Option ModuleConfig
unfolding set_param
set_params switch_true [] config = some config
set_params switch_true ((name, value) ∷ params) config =
    elim (set_param switch_true name value config) [
      | none ↦ none
      | some changed ↦ set_params switch_true params changed
    ]

-- `LoadConfig`, with the params of the settings, none if there is no configuration file.
unfoldable pub load_config :
    (switch_true : Text → Bool) → Option (List (Text × Text)) → Option ModuleConfig
unfolding set_params
load_config switch_true none = some (sanitize_config defaults)
load_config switch_true (some params) = elim (set_params switch_true params defaults) [
  | none ↦ none
  | some config ↦ some (sanitize_config config)
]

-- The error that is logged for half a client certificate.
abbrev pub logs_half : (set : ModuleConfig) → Bool
logs_half set = half_a_certificate set.tls

-- The mix, or none with an error. No text is mono.
unfoldable pub parse_mix_type : Option Text → Option MixType
unfolding same_word
parse_mix_type none = some mono
parse_mix_type (some text) =
    if same_word text (codes "mono")
    then some mono
    else if same_word text (codes "mixed")
    then some mixed
    else if same_word text (codes "stereo")
    then some stereo
    else none

-- `MakeTuning`. The drain timeout of a sane configuration is not negative.
unfoldable pub make_tuning : ModuleConfig → AudioFormat → Tuning
unfolding bytes_for_duration
make_tuning config format =
    let playback_format : AudioFormat = record { sample_rate = format.sample_rate; channels = 1 } in
    record {
      send_cap_bytes = bytes_for_duration format config.send_buffer;
      handoff_bytes = bytes_for_duration format config.handoff_buffer;
      coalesce_max_bytes = bytes_for_duration format config.coalesce_max;
      emergency_cap_bytes = bytes_for_duration format config.emergency_buffer;
      drain_timeout = pos_part config.drain_timeout;
      playback_high_watermark_bytes =
          bytes_for_duration playback_format config.playback_high_watermark;
      playback_low_watermark_bytes =
          bytes_for_duration playback_format config.playback_low_watermark;
      playback_handoff_bytes = bytes_for_duration playback_format config.coalesce_max;
    }
