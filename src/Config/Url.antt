-- ===== src/Config/Url.antt =====
-- The parsing of endpoints of core/src/config.cpp: `ParsePort`, `SplitAuthority` and `ParseWsUrl`.
pub mod Port
pub mod Find
pub mod Accepts
pub mod Sound
use mod_audio_fork.Common.{
  ℕ, zero, suc, ◌+◌, ◌-◌, ◌*◌, ◌%◌, ◌^◌, ◌==◌, Bool, true, false, ◌&&◌, ◌||◌, Option, none, some,
  List, [], ◌∷◌, if◌then◌else◌, ltb, length, take, drop, Text, codes,
}
use mod_audio_fork.Config.{is_empty}
use mod_audio_fork.ForkSession.Ports.{Endpoint}

abbrev pub default_tls_port : ℕ
default_tls_port = 443

abbrev pub default_plain_port : ℕ
default_plain_port = 80

-- `std::string_view`: `find` and `rfind` of a character, whether a text stands in front, `substr` up
-- to a position or to the end.
unfoldable pub find : ℕ → Text → Option ℕ
find c [] = none
find c (x ∷ xs) =
    if x == c then some 0 else elim (find c xs) [ none ↦ none | some i ↦ some (suc i) ]

unfoldable pub rfind : ℕ → Text → Option ℕ
rfind c [] = none
rfind c (x ∷ xs) = elim (rfind c xs) [
  | some i ↦ some (suc i)
  | none ↦ if x == c then some 0 else none
]

abbrev pub starts_with : Text → Text → Bool
starts_with [] t = true
starts_with (p ∷ ps) [] = false
starts_with (p ∷ ps) (x ∷ xs) = (x == p) && starts_with ps xs

-- One round of the loop over the digits, which keeps an `unsigned`.
pub port_digits : (value : ℕ) → Text → Option ℕ
port_digits value [] = some value
port_digits value (digit ∷ digits) =
    let rest = port_digits ((value * 10 + (digit - b'0')) % 2 ^ 32) digits in
    if ltb digit b'0' || ltb b'9' digit then none else rest

-- The port, if it is one.
unfoldable pub parse_port : Text → Option ℕ
unfolding port_digits
parse_port text = if is_empty text || ltb 5 (length text) then none else elim (port_digits 0 text) [
  | none ↦ none
  | some value ↦ if value == 0 || ltb 65535 value then none else some value
]

-- The host, and the text of the port where there is one; none if the authority is malformed.
pub record Authority : Type 0 where
  pub host : Text
  pub port_text : Option Text

-- Behind the bracket of a literal.
abbrev pub split_rest : (host rest : Text) → Option Authority
split_rest host [] = some (record { host = host; port_text = none })
split_rest host (c ∷ rest) =
    if c == b':' then some (record { host = host; port_text = some rest }) else none

abbrev pub split_literal : (authority : Text) → Option ℕ → Option Authority
split_literal authority none = none
split_literal authority (some close) =
    split_rest (take (close - 1) (drop 1 authority)) (drop (close + 1) authority)

abbrev pub split_name : (authority : Text) → Option ℕ → Authority
split_name authority none = record { host = authority; port_text = none }
split_name authority (some colon) = record {
  host = take colon authority;
  port_text = some (drop (colon + 1) authority);
}

abbrev pub is_bracketed : Text → Bool
is_bracketed [] = false
is_bracketed (c ∷ cs) = c == b'['

unfoldable pub split_authority : Text → Option Authority
split_authority authority =
    if is_bracketed authority
    then split_literal authority (find b']' authority)
    else some (split_name authority (rfind b':' authority))

pub data Parsed : Type 0 where
  parsed : Endpoint → Parsed
  refused : (error : Text) → Parsed

abbrev pub default_port : (tls : Bool) → ℕ
default_port tls = if tls then default_tls_port else default_plain_port

abbrev pub with_port : Bool → (path : Text) → Authority → Option ℕ → Parsed
with_port tls path a none = refused (codes "url has an invalid port")
with_port tls path a (some port) =
    parsed (record { host = a.host; port = port; path = path; tls = tls })

abbrev pub chosen_port : Bool → Option Text → Option ℕ
chosen_port tls none = some (default_port tls)
chosen_port tls (some text) = parse_port text

abbrev pub with_authority : Bool → (path : Text) → Option Authority → Parsed
with_authority tls path none = refused (codes "url has a malformed host")
with_authority tls path (some a) =
    if is_empty a.host
    then refused (codes "url has no host")
    else with_port tls path a (chosen_port tls a.port_text)

-- What follows the scheme, cut at its first slash.
abbrev pub with_slash : Bool → (url : Text) → Option ℕ → Parsed
with_slash tls url none = with_authority tls (codes "/") (split_authority url)
with_slash tls url (some slash) =
    with_authority tls (drop slash url) (split_authority (take slash url))

unfoldable pub parse_ws_url : Text → Parsed
parse_ws_url url =
    if starts_with (codes "wss://") url
    then with_slash true (drop 6 url) (find b'/' (drop 6 url))
    else if starts_with (codes "ws://") url
    then with_slash false (drop 5 url) (find b'/' (drop 5 url))
    else refused (codes "url must start with ws:// or wss://")
