-- ===== src/Config/Url/Accepts.antt =====
-- `ParseWsUrl` of core/src/config.cpp reads back every endpoint that is written as a URL.
use mod_audio_fork.Common.{
  ℕ, suc, ◌+◌, ◌-◌, ◌≡◌, refl, sym, ap, ap₂, ◌∙◌, Bool, true, false, ◌⊎◌, inl, inr, Option, none,
  some, [], ◌∷◌, ◌++◌, append-nil, if◌then◌else◌, length, take_cong, drop_cong, Text, codes, arith,
}
use mod_audio_fork.Config.{is_empty}
use mod_audio_fork.ForkSession.Ports.{Endpoint}
use mod_audio_fork.Config.Url.{
  find, Authority, split_authority, split_rest, is_bracketed, parsed, default_port, with_slash,
  with_authority, chosen_port, parse_ws_url,
}
use mod_audio_fork.Config.Url.Find.{
  Free, Free-append, find-Free, find-append, find_skip, rfind-Free, rfind-append, find_skip,
  take-at, drop-at, drop_past,
}
use mod_audio_fork.Config.Url.Port.{Digits, IsPort, parse_port_iff}

-- The parts of a URL: a literal address is written in brackets, the port and the path may be left
-- out.
pub record Parts : Type 0 where
  pub tls : Bool
  pub literal : Bool
  pub host : Text
  pub port_text : Option Text
  pub path : Text

abbrev pub scheme : Bool → Text
scheme tls = if tls then codes "wss://" else codes "ws://"

abbrev pub host_text : (literal : Bool) → Text → (rest : Text) → Text
host_text literal host rest = if literal then b'[' ∷ (host ++ b']' ∷ rest) else host ++ rest

abbrev pub port_suffix : Option Text → Text
port_suffix none = []
port_suffix (some t) = b':' ∷ t

abbrev pub authority : Parts → Text
authority p = host_text p.literal p.host (port_suffix p.port_text)

abbrev pub written : Parts → Text
written p = scheme p.tls ++ (authority p ++ p.path)

abbrev pub PortIs : Bool → Option Text → ℕ → Type 0
PortIs tls none port = port ≡ default_port tls
PortIs tls (some t) port = IsPort t port

-- A host without brackets has no bracket in front, and no colons unless a port follows.
abbrev pub HostIs : (literal : Bool) → Text → Option Text → Type 0
HostIs true host o = Free b']' host
HostIs false host none = (is_bracketed host ≡ false) × Free b':' host
HostIs false host (some t) = is_bracketed host ≡ false

abbrev pub PathIs : Text → Type 0
PathIs [] = Unit
PathIs (c ∷ cs) = c ≡ b'/'

abbrev pub path_or_root : Text → Text
path_or_root path = if is_empty path then codes "/" else path

-- A host without a slash; a port; no path, or one that starts with a slash.
pub record IsUrl (p : Parts) (port : ℕ) : Type 0 where
  pub named : is_empty p.host ≡ false
  pub host : HostIs p.literal p.host p.port_text
  pub whole : Free b'/' p.host
  pub numbered : PortIs p.tls p.port_text port
  pub path : PathIs p.path

Digits-Free : (c : ℕ) (t : Text) → (c ≡ b'/') ⊎ (c ≡ b':') → Digits t → Free c t
Digits-Free c [] e h = tt
Digits-Free c (d ∷ ds) e h = (ground arith, Digits-Free c ds e h.1)

chosen_port-PortIs :
    (tls : Bool) (o : Option Text) (port : ℕ) → PortIs tls o port → chosen_port tls o ≡ some port
chosen_port-PortIs tls none port e = ap some (sym e)
chosen_port-PortIs tls (some t) port v = (parse_port_iff t port).1 v

suffix-Free :
    (tls : Bool) (o : Option Text) (port : ℕ) → PortIs tls o port → Free b'/' (port_suffix o)
suffix-Free tls none port e = tt
suffix-Free tls (some t) port v = (refl, Digits-Free b'/' t (inl refl) v.digits)

is_bracketed-append :
    (xs ys : Text) → is_empty xs ≡ false → is_bracketed xs ≡ false → is_bracketed (xs ++ ys) ≡ false
is_bracketed-append [] ys n h = cc
is_bracketed-append (x ∷ xs) ys n h = h

host_text-Free :
    (literal : Bool) (host rest : Text)
    → Free b'/' host
    → Free b'/' rest
    → Free b'/' (host_text literal host rest)
host_text-Free true host rest h k = (refl, Free-append b'/' host (b']' ∷ rest) h (refl, k))
host_text-Free false host rest h k = Free-append b'/' host rest h k

abbrev split_into : Text → Option Text → Option Authority
split_into host o = some (record { host = host; port_text = o })

split_rest-suffix :
    (host : Text) (o : Option Text) → split_rest host (port_suffix o) ≡ split_into host o
split_rest-suffix host none = refl
split_rest-suffix host (some t) = refl

split_authority-literal :
    (host : Text) (o : Option Text)
    → Free b']' host
    → split_authority (host_text true host (port_suffix o)) ≡ split_into host o
unfolding split_authority
split_authority-literal host o h =
    let rest = port_suffix o in
    let close : find b']' (host_text true host rest) ≡ some (suc (length host)) =
      find_skip b']' b'[' (length host) (host ++ b']' ∷ rest) refl (find-append b']' host rest h) in
    rw close (
      ap₂ split_rest
        (take_cong {m = suc (length host) - 1} {n = length host} (host ++ b']' ∷ rest) (omega arith)
          ∙ take-at host (b']' ∷ rest))
        (drop_cong {m = suc (length host) + 1} {n = suc (length host + 1)}
            (b'[' ∷ (host ++ b']' ∷ rest)) (omega arith)
          ∙ drop_past b']' host rest)
      ∙ split_rest-suffix host o)

split_authority-name :
    (host : Text) (o : Option Text) (tls : Bool) (port : ℕ)
    → is_empty host ≡ false
    → HostIs false host o
    → PortIs tls o port
    → split_authority (host_text false host (port_suffix o)) ≡ split_into host o
unfolding split_authority
split_authority-name host none tls port n h p = rw (append-nil host, h.0, rfind-Free b':' host h.1)
split_authority-name host (some t) tls port n h p = rw (
  is_bracketed-append host (b':' ∷ t) n h,
  rfind-append b':' host t (Digits-Free b':' t (inr refl) p.digits),
  take-at host (b':' ∷ t),
  drop_past b':' host t,
)

split_authority-written :
    (literal : Bool) (host : Text) (o : Option Text) (tls : Bool) (port : ℕ)
    → is_empty host ≡ false
    → HostIs literal host o
    → PortIs tls o port
    → split_authority (host_text literal host (port_suffix o)) ≡ split_into host o
split_authority-written true host o tls port n h p = split_authority-literal host o h
split_authority-written false host o tls port n h p = split_authority-name host o tls port n h p

authority-Free : (p : Parts) (port : ℕ) → IsUrl p port → Free b'/' (authority p)
authority-Free p port v =
    host_text-Free p.literal p.host (port_suffix p.port_text) v.whole
      (suffix-Free p.tls p.port_text port v.numbered)

abbrev pub endpoint : Parts → ℕ → Endpoint
endpoint p port = record { host = p.host; port = port; path = path_or_root p.path; tls = p.tls }

with_authority-written :
    (p : Parts) (port : ℕ) (path : Text)
    → IsUrl p port
    → with_authority p.tls path (split_authority (authority p))
      ≡ parsed (record { host = p.host; port = port; path = path; tls = p.tls })
with_authority-written p port path v = rw (
  split_authority-written p.literal p.host p.port_text p.tls port v.named v.host v.numbered,
  v.named,
  chosen_port-PortIs p.tls p.port_text port v.numbered,
)

with_slash-written :
    (p : Parts) (port : ℕ) (path : Text)
    → PathIs path
    → IsUrl p port
    → with_slash p.tls (authority p ++ path) (find b'/' (authority p ++ path))
      ≡ parsed (record { host = p.host; port = port; path = path_or_root path; tls = p.tls })
with_slash-written p port [] h v =
    rw (append-nil (authority p), find-Free b'/' (authority p) (authority-Free p port v))
      (with_authority-written p port (codes "/") v)
with_slash-written p port (c ∷ cs) h v =
    rw
      (
        h,
        find-append b'/' (authority p) cs (authority-Free p port v),
        take-at (authority p) (b'/' ∷ cs),
        drop-at (authority p) (b'/' ∷ cs),
      )
      (with_authority-written p port (b'/' ∷ cs) v)

parse_ws_url-scheme :
    (tls : Bool) (rest : Text)
    → parse_ws_url (scheme tls ++ rest) ≡ with_slash tls rest (find b'/' rest)
unfolding parse_ws_url
parse_ws_url-scheme true rest = refl
parse_ws_url-scheme false rest = refl

-- A URL that is written from a scheme, a host (a literal address in brackets), a port or none, and a
-- path or none, is parsed to these: the brackets go, a port left out is that of the scheme, and a
-- path left out is the root.
pub parse_ws_url-written :
    (p : Parts) (port : ℕ) → IsUrl p port → parse_ws_url (written p) ≡ parsed (endpoint p port)
parse_ws_url-written p port v =
    parse_ws_url-scheme p.tls (authority p ++ p.path) ∙ with_slash-written p port p.path v.path v
