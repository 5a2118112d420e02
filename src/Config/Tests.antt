-- ===== src/Config/Tests.antt =====
-- Configurations and URLs of core/src/config.cpp.
use mod_audio_fork.Common.{◌≡◌, refl, ◌↔◌, ℕ, true, false, some, [], codes, pos, negsuc, arith}
use mod_audio_fork.Config.{ModuleConfig, defaults, sanitize_tls, sanitize_config}
use mod_audio_fork.Config.Limits.{IsSane, sanitize_config-IsSane, sanitize_config_fixes}
use mod_audio_fork.Config.Url.{
  find, rfind, parse_port, split_authority, parsed, refused, parse_ws_url,
}
use mod_audio_fork.Config.Url.Accepts.{Parts, IsUrl, written, endpoint, parse_ws_url-written}
use mod_audio_fork.Config.Url.Sound.{parse_ws_url-IsUrl}
use mod_audio_fork.ForkSession.Ports.{Endpoint}

-- A negative buffer, an inverted backoff, and half a certificate.
abbrev broken : ModuleConfig
broken = record defaults {
  send_buffer = negsuc 4;
  reconnect_min = pos 9000;
  max_forks_per_call = 100;
  tls = record { ca_file = []; cert_file = codes "cert.pem"; key_file = []; verify = true };
}

clamped : (sanitize_config broken).send_buffer ≡ pos 100
unfolding sanitize_config
clamped = refl

ordered : (sanitize_config broken).reconnect_max ≡ pos 9000
unfolding sanitize_config
ordered = refl

no_half : (sanitize_config broken).tls.cert_file ≡ []
unfolding sanitize_config sanitize_tls
no_half = refl

sanitize_config-IsSane_example : IsSane (sanitize_config broken)
sanitize_config-IsSane_example = sanitize_config-IsSane broken

sanitize_config_fixes_example : IsSane defaults ↔ (sanitize_config defaults ≡ defaults)
sanitize_config_fixes_example = sanitize_config_fixes defaults

-- An address in brackets, with a port and a query.
abbrev parts : Parts
parts = record {
  tls = true;
  literal = true;
  host = codes "::1";
  port_text = some (codes "08443");
  path = codes "/a?b=c:d";
}

parts-IsUrl : IsUrl parts 8443
parts-IsUrl = record {
  named = refl;
  host = (refl, (refl, (refl, tt)));
  whole = (refl, (refl, (refl, tt)));
  numbered = record {
    digits = omega arith;
    short = omega arith;
    value = refl;
    bounds = omega arith;
  };
  path = refl;
}

parse_ws_url-written_example :
    parse_ws_url (codes "wss://[::1]:08443/a?b=c:d")
    ≡ parsed (record { host = codes "::1"; port = 8443; path = codes "/a?b=c:d"; tls = true })
parse_ws_url-written_example = parse_ws_url-written parts 8443 parts-IsUrl

abbrev plain : Endpoint
plain = record { host = codes "media"; port = 80; path = codes "/"; tls = false }

plain_parsed : parse_ws_url (codes "ws://media") ≡ parsed plain
unfolding parse_ws_url split_authority find rfind
plain_parsed = refl

parse_ws_url-IsUrl_example :
    (p : Parts) × (port : ℕ) × IsUrl p port
    × (codes "ws://media" ≡ written p)
    × (plain ≡ endpoint p port)
parse_ws_url-IsUrl_example = parse_ws_url-IsUrl (codes "ws://media") plain plain_parsed

no_port : parse_ws_url (codes "ws://media:0/") ≡ refused (codes "url has an invalid port")
unfolding parse_ws_url split_authority find rfind parse_port
no_port = refl

-- A query with no path before it is taken into the host.
query_in_host :
    parse_ws_url (codes "ws://media?x=1")
    ≡ parsed (record { host = codes "media?x=1"; port = 80; path = codes "/"; tls = false })
unfolding parse_ws_url split_authority find rfind
query_in_host = refl

unbalanced : parse_ws_url (codes "ws://[::1/") ≡ refused (codes "url has a malformed host")
unfolding parse_ws_url split_authority find rfind
unbalanced = refl
