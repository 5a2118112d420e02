-- ===== src/Config/Url/Sound.antt =====
-- `ParseWsUrl` of core/src/config.cpp accepts nothing but URLs.
use mod_audio_fork.Common.{
  ℕ, ◌-◌, ◌==◌, ◌≡◌, refl, sym, ap, ap₂, ◌∙◌, subst, Bool, true, false, Bool-cases, Option-cases,
  inl, inr, Option, none, some, [], ◌∷◌, ◌++◌, append-nil, length, take, drop, take_cong, Text,
  codes, arith,
}
use mod_audio_fork.Config.{is_empty}
use mod_audio_fork.ForkSession.Ports.{Endpoint}
use mod_audio_fork.Config.Url.{
  find, rfind, Authority, split_authority, split_literal, split_rest, split_name, is_bracketed,
  parsed, starts_with, with_slash, with_authority, chosen_port, parse_ws_url,
}
use mod_audio_fork.Config.Url.Find.{
  Free, find_missing, find_found, rfind_missing, rfind_found, take-at, drop-at, cut,
}
use mod_audio_fork.Config.Url.Port.{parse_port_iff}
use mod_audio_fork.Config.Url.Accepts.{
  Parts, scheme, host_text, port_suffix, authority, written, PortIs, HostIs, PathIs, path_or_root,
  IsUrl, endpoint,
}

-- How an authority was written.
record Writes (t : Text) (a : Authority) : Type 0 where
  literal : Bool
  whole : t ≡ host_text literal a.host (port_suffix a.port_text)
  host : HostIs literal a.host a.port_text

same_authority : {a b : Authority} → some a ≡ some b → a ≡ b
same_authority e = cc

split_rest-Writes :
    (host rest : Text) (a : Authority)
    → Free b']' host
    → split_rest host rest ≡ some a
    → Writes (b'[' ∷ (host ++ b']' ∷ rest)) a
split_rest-Writes host [] a f e =
    subst (Writes (b'[' ∷ (host ++ b']' ∷ []))) (same_authority e)
      (record { literal = true; whole = refl; host = f })
split_rest-Writes host (c ∷ rest) a f e = elim (Bool-cases (c == b':')) [
  | inl colon ↦
      let is : c ≡ b':' = ground arith in
      subst (Writes (b'[' ∷ (host ++ b']' ∷ c ∷ rest))) (same_authority (rw colon at e))
        (record { literal = true; whole = ap (λ x. b'[' ∷ (host ++ b']' ∷ x ∷ rest)) is; host = f })
  | inr other ↦ cc (rw other at e)
]

-- A literal closes behind the bracket that opens it.
inside : (xs rest : Text) → is_bracketed (xs ++ b']' ∷ rest) ≡ true → (h : Text) × (xs ≡ b'[' ∷ h)
inside [] rest b = cc
inside (x ∷ xs) rest b = (xs, ap (λ y. y ∷ xs) (ground arith))

split_literal-Writes :
    (t : Text) (o : Option ℕ) (a : Authority)
    → is_bracketed t ≡ true
    → find b']' t ≡ o
    → split_literal t o ≡ some a
    → Writes t a
split_literal-Writes t none a b f e = cc
split_literal-Writes t (some i) a b f e =
    let (k, free) = find_found b']' t i f in
    let (h, opened) = inside k.before k.behind (rw k.whole at b) in
    let whole : t ≡ b'[' ∷ (h ++ b']' ∷ k.behind) =
      k.whole ∙ ap (λ xs. xs ++ b']' ∷ k.behind) opened in
    let host : take (i - 1) (drop 1 t) ≡ h =
      ap (λ xs. take (i - 1) (drop 1 xs)) whole
      ∙ take_cong {n = length h} (h ++ b']' ∷ k.behind)
          (omega (arith, k.position, ap length opened))
      ∙ take-at h (b']' ∷ k.behind) in
    subst (λ x. Writes x a) (sym whole)
      (split_rest-Writes h k.behind a (rw opened at free).1
        (ap₂ split_rest (sym host) (sym (cut k).1) ∙ e))

is_bracketed-front : (xs ys : Text) → is_bracketed (xs ++ ys) ≡ false → is_bracketed xs ≡ false
is_bracketed-front [] ys h = refl
is_bracketed-front (x ∷ xs) ys h = h

split_name-Writes :
    (t : Text) (o : Option ℕ)
    → is_bracketed t ≡ false
    → rfind b':' t ≡ o
    → Writes t (split_name t o)
split_name-Writes t none h e = record {
  literal = false;
  whole = sym (append-nil t);
  host = (h, rfind_missing b':' t e);
}
split_name-Writes t (some i) h e =
    let (k, free) = rfind_found b':' t i e in
    let (front, back) = cut k in
    record {
      literal = false;
      whole = k.whole ∙ ap₂ (λ xs ys. xs ++ b':' ∷ ys) (sym front) (sym back);
      host = rw front (is_bracketed-front k.before (b':' ∷ k.behind) (rw k.whole at h));
    }

split_authority-Writes : (t : Text) (a : Authority) → split_authority t ≡ some a → Writes t a
unfolding split_authority
split_authority-Writes t a e = elim (Bool-cases (is_bracketed t)) [
  | inl literal ↦ split_literal-Writes t (find b']' t) a literal refl (rw literal at e)
  | inr name ↦
      subst (Writes t) (same_authority (rw name at e))
        (split_name-Writes t (rfind b':' t) name refl)
]

-- The port that was chosen is the one that was written.
chosen_port-PortIs :
    (tls : Bool) (o : Option Text) (port : ℕ) → chosen_port tls o ≡ some port → PortIs tls o port
chosen_port-PortIs tls none port e = ground arith
chosen_port-PortIs tls (some t) port e = (parse_port_iff t port).0 e

-- What an accepted URL says.
record Accepted (tls : Bool) (path : Text) (t : Text) (e : Endpoint) : Type 0 where
  at : Authority
  port : ℕ
  writes : Writes t at
  named : is_empty at.host ≡ false
  numbered : PortIs tls at.port_text port
  whole : e ≡ record { host = at.host; port = port; path = path; tls = tls }

with_authority-Accepted :
    (tls : Bool) (path t : Text) (e : Endpoint)
    → with_authority tls path (split_authority t) ≡ parsed e
    → Accepted tls path t e
with_authority-Accepted tls path t e h = elim (Option-cases (split_authority t)) [
  | inl bad ↦ cc (rw bad at h)
  | inr (a, split) ↦ elim (Bool-cases (is_empty a.host)) [
    | inl empty ↦ cc (rw (split, empty) at h)
    | inr named ↦ elim (Option-cases (chosen_port tls a.port_text)) [
      | inl bad ↦ cc (rw (split, named, bad) at h)
      | inr (port, chosen) ↦ record {
        at = a;
        port = port;
        writes = split_authority-Writes t a split;
        named = named;
        numbered = chosen_port-PortIs tls a.port_text port chosen;
        whole = sym (cc (rw (split, named, chosen) at h));
      }
    ]
  ]
]

Free-left : (c : ℕ) (xs ys : Text) → Free c (xs ++ ys) → Free c xs
Free-left c [] ys h = tt
Free-left c (x ∷ xs) ys h = (h.0, Free-left c xs ys h.1)

host_text-Free :
    (literal : Bool) (host rest : Text) → Free b'/' (host_text literal host rest) → Free b'/' host
host_text-Free true host rest h = Free-left b'/' host (b']' ∷ rest) h.1
host_text-Free false host rest h = Free-left b'/' host rest h

-- The URL that was written with a path, or with none.
record Url (tls : Bool) (rest : Text) (e : Endpoint) : Type 0 where
  parts : Parts
  port : ℕ
  secure : parts.tls ≡ tls
  valid : IsUrl parts port
  whole : rest ≡ authority parts ++ parts.path
  reads : e ≡ endpoint parts port

Accepted-Url :
    (tls : Bool) (path t : Text) (e : Endpoint)
    → PathIs path
    → Free b'/' t
    → Accepted tls (path_or_root path) t e
    → Url tls (t ++ path) e
Accepted-Url tls path t e h f a =
    let w = a.writes in
    record {
      parts = record {
        tls = tls;
        literal = w.literal;
        host = a.at.host;
        port_text = a.at.port_text;
        path = path;
      };
      port = a.port;
      secure = refl;
      valid = record {
        named = a.named;
        host = w.host;
        whole =
            host_text-Free w.literal a.at.host (port_suffix a.at.port_text)
              (subst (Free b'/') w.whole f);
        numbered = a.numbered;
        path = h;
      };
      whole = ap (λ x. x ++ path) w.whole;
      reads = a.whole;
    }

with_slash-Url :
    (tls : Bool) (rest : Text) (o : Option ℕ) (e : Endpoint)
    → find b'/' rest ≡ o
    → with_slash tls rest o ≡ parsed e
    → Url tls rest e
with_slash-Url tls rest none e f h =
    subst (λ x. Url tls x e) (append-nil rest)
      (Accepted-Url tls [] rest e tt (find_missing b'/' rest f)
        (with_authority-Accepted tls (codes "/") rest e h))
with_slash-Url tls rest (some i) e f h =
    let (k, free) = find_found b'/' rest i f in
    let front : take i rest ≡ k.before = (cut k).0 in
    let back : drop i rest ≡ b'/' ∷ k.behind =
      ap₂ drop k.position k.whole ∙ drop-at k.before (b'/' ∷ k.behind) in
    subst (λ x. Url tls x e) (sym k.whole)
      (Accepted-Url tls (b'/' ∷ k.behind) k.before e refl free
        (with_authority-Accepted tls (b'/' ∷ k.behind) k.before e (rw (front, back) at h)))

starts_with-whole : (p t : Text) → starts_with p t ≡ true → t ≡ p ++ drop (length p) t
starts_with-whole [] t h = refl
starts_with-whole (c ∷ cs) [] h = cc
starts_with-whole (c ∷ cs) (x ∷ xs) h = elim (Bool-cases (x == c)) [
  | inl same ↦ ap₂ (λ y ys. y ∷ ys) (ground arith) (starts_with-whole cs xs (rw same at h))
  | inr other ↦ cc (rw other at h)
]

taken_parts :
    (tls : Bool) (url : Text) (e : Endpoint) {rest : Text}
    → url ≡ scheme tls ++ rest
    → Url tls rest e
    → (p : Parts) × (port : ℕ) × IsUrl p port × (url ≡ written p) × (e ≡ endpoint p port)
taken_parts tls url e w u =
    (u.parts, u.port, u.valid, w ∙ ap₂ (λ b xs. scheme b ++ xs) (sym u.secure) u.whole, u.reads)

-- A URL that is accepted was written from a scheme, a host, a port or none, and a path or none, and
-- the endpoint returned is made of these.
pub parse_ws_url-IsUrl :
    (url : Text) (e : Endpoint)
    → parse_ws_url url ≡ parsed e
    → (p : Parts) × (port : ℕ) × IsUrl p port × (url ≡ written p) × (e ≡ endpoint p port)
unfolding parse_ws_url
parse_ws_url-IsUrl url e h = elim (Bool-cases (starts_with (codes "wss://") url)) [
  | inl secure ↦
      taken_parts true url e (starts_with-whole (codes "wss://") url secure)
        (with_slash-Url true (drop 6 url) (find b'/' (drop 6 url)) e refl (rw secure at h))
  | inr plain ↦ elim (Bool-cases (starts_with (codes "ws://") url)) [
    | inl open_text ↦ taken_parts false url e (starts_with-whole (codes "ws://") url open_text) (
        with_slash-Url false (drop 5 url) (find b'/' (drop 5 url)) e refl
          (rw (plain, open_text) at h))
    | inr other ↦ cc (rw (plain, other) at h)
  ]
]
