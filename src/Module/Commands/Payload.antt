-- ===== src/Module/Commands/Payload.antt =====
-- `SendTextPayload` of module/mod_audio_fork.cpp finds what follows the subcommand.
use mod_audio_fork.Common.{ℕ, zero, suc, ◌==◌, ◌≡◌, refl, false, [], ◌∷◌, ◌++◌, replicate, Text}
use mod_audio_fork.Config.{is_empty}
use mod_audio_fork.Module.Commands.{skip_spaces, skip_token, send_text_payload}

-- A text without spaces, and one that does not start with a space.
abbrev pub IsWord : Text → Type 0
IsWord [] = Unit
IsWord (c ∷ cs) = ((c == b' ') ≡ false) × IsWord cs

abbrev pub StartsBare : Text → Type 0
StartsBare [] = Unit
StartsBare (c ∷ cs) = (c == b' ') ≡ false

abbrev pub spaces : ℕ → Text
spaces n = replicate n b' '

skip_spaces-spaces : (n : ℕ) (t : Text) → StartsBare t → skip_spaces (spaces n ++ t) ≡ t
unfolding skip_spaces
skip_spaces-spaces zero [] h = refl
skip_spaces-spaces zero (c ∷ cs) h = rw h
skip_spaces-spaces (suc n) t h = skip_spaces-spaces n t h

skip_token-word :
    (w t : Text) (n : ℕ) → IsWord w → skip_token (w ++ (spaces (suc n) ++ t)) ≡ spaces (suc n) ++ t
unfolding skip_token
skip_token-word [] t n h = refl
skip_token-word (c ∷ cs) t n h = rw h.0 (skip_token-word cs t n h.1)

bare-append : (w t : Text) → is_empty w ≡ false → IsWord w → StartsBare (w ++ t)
bare-append [] t e h = cc
bare-append (c ∷ cs) t e h = h.0

-- A command line of a call, a subcommand and a payload, with any number of spaces between them and in
-- front, gives the payload, spaces in it and all.
pub send_text_payload-command :
    (uuid subcommand payload : Text) (front between before : ℕ)
    → (is_empty uuid ≡ false) × IsWord uuid
    → (is_empty subcommand ≡ false) × IsWord subcommand
    → StartsBare payload
    → send_text_payload (
        spaces front
        ++ (uuid ++ (spaces (suc between) ++ (subcommand ++ (spaces (suc before) ++ payload)))))
      ≡ payload
unfolding send_text_payload
send_text_payload-command uuid subcommand payload front between before u s p =
    let tail = spaces (suc before) ++ payload in
    let middle = subcommand ++ tail in
    rw
      (
        skip_spaces-spaces front (uuid ++ (spaces (suc between) ++ middle))
            (bare-append uuid _ u.0 u.1),
        skip_token-word uuid middle between u.1,
        skip_spaces-spaces (suc between) middle (bare-append subcommand tail s.0 s.1),
        skip_token-word subcommand payload before s.1,
      )
      (skip_spaces-spaces (suc before) payload p)
