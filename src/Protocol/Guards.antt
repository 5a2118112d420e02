-- ===== src/Protocol/Guards.antt =====
-- What the messages that core/src/protocol.cpp lets through are.
use mod_audio_fork.Common.{
  ℕ, ◌≤◌, ◌<◌, ◌≡◌, refl, ◌⊎◌, inl, inr, Bool, true, false, not, ◌||◌, Option, none, some, ltb,
  ◌==◌, if◌then◌else◌, length, Text, codes, same_text, ◌%◌, ◌^◌, Bool-cases, Option-cases, arith,
}
use mod_audio_fork.Protocol.{
  JsonLibrary, ServerMessage, start_playback, clear_playback, playback_mark, server_disconnect,
  relay_to_app, nesting_too_deep, max_message_bytes, valid_sample_rate, parse_server_message,
  read_mark, read_channels, read_rate, read_typed, read_type, read_parsed,
}

-- What a session may rely on: a rate and channels in range or not given, a name that fits, and the
-- text itself where it goes to the application.
unfoldable pub Sound : Text → ServerMessage → Type 0
Sound text (start_playback rate channels) =
    ((rate ≡ 0) ⊎ ((8000 ≤ rate) × (rate ≤ 48000))) × (channels ≤ 2)
Sound text (playback_mark name) = (0 < length name) × (length name ≤ 256)
Sound text (relay_to_app payload) = payload ≡ text
Sound text _ = Unit {0}

module _ {J : Type 0} (json : JsonLibrary J) (text : Text) where
  read_channels-Sound :
      (rate : ℕ) (channels : Option J)
      → (rate ≡ 0) ⊎ ((8000 ≤ rate) × (rate ≤ 48000))
      → Sound text (read_channels json rate channels)
  unfolding Sound
  read_channels-Sound rate none h = (h, omega arith)
  read_channels-Sound rate (some value) h = elim (Option-cases (json.as_unsigned value)) [
    | inl e ↦ rw (e, read_channels) tt
    | inr (channels, e) ↦
        rw (e, read_channels)
          (elim (Bool-cases (ltb channels 1 || ltb 2 channels)) [
            | inl t ↦ rw t tt
            | inr t ↦ rw t (h, ground arith)
          ])
  ]

  read_rate-Sound : (rate channels : Option J) → Sound text (read_rate json rate channels)
  unfolding Sound
  read_rate-Sound none channels = read_channels-Sound 0 channels (inl refl)
  read_rate-Sound (some value) channels = elim (Option-cases (json.as_unsigned value)) [
    | inl e ↦ rw (e, read_rate) tt
    | inr (rate, e) ↦
        rw (e, read_rate)
          (elim (Bool-cases (not (valid_sample_rate (rate % 2 ^ 32)) || ltb 48000 rate)) [
            | inl t ↦ rw t tt
            | inr t ↦ rw t (read_channels-Sound (rate % 2 ^ 32) channels (inr (ground arith)))
          ])
  ]

  read_mark-Sound : (name : Option J) → Sound text (read_mark json name)
  unfolding Sound
  read_mark-Sound none = tt
  read_mark-Sound (some value) = elim (Option-cases (json.as_string value)) [
    | inl e ↦ rw (e, read_mark) tt
    | inr (name, e) ↦
        rw (e, read_mark)
          (elim (Bool-cases (length name == 0 || ltb 256 (length name))) [
            | inl t ↦ rw t tt
            | inr t ↦ rw t (ground arith, ground arith)
          ])
  ]

  read_typed-Sound : (message : J) (type : Text) → Sound text (read_typed json text message type)
  unfolding Sound
  read_typed-Sound message type = if_Sound (same_text type (codes "clear")) clear_playback _ tt (
      if_Sound (same_text type (codes "disconnect")) server_disconnect _ tt (
        if_Sound (same_text type (codes "mark")) (read_mark json (json.find (codes "name") message))
          _ (read_mark-Sound (json.find (codes "name") message))
          (if_Sound (same_text type (codes "start_playback")) _ (relay_to_app text)
            (read_rate-Sound (json.find (codes "rate") message)
              (json.find (codes "channels") message))
            refl)))
    where
      if_Sound :
          (b : Bool) (x y : ServerMessage)
          → Sound text x
          → Sound text y
          → Sound text (if b then x else y)
      if_Sound true x y h k = h
      if_Sound false x y h k = k

  read_parsed-Sound : (message : Option J) → Sound text (read_parsed json text message)
  unfolding Sound
  read_parsed-Sound none = tt
  read_parsed-Sound (some message) = elim (Bool-cases (not (json.is_object message))) [
    | inl t ↦ rw (t, read_parsed) refl
    | inr t ↦ rw (t, read_parsed) (of_type (json.find (codes "type") message))
  ]
    where
      of_type : (type : Option J) → Sound text (read_type json text message type)
      of_type none = refl
      of_type (some value) = elim (Option-cases (json.as_string value)) [
        | inl e ↦ rw (e, read_type) refl
        | inr (type, e) ↦ rw (e, read_type) (read_typed-Sound message type)
      ]

  -- Whatever the JSON library answers: a playback start carries a rate of 8000 to 48000 or none and
  -- at most 2 channels, the name of a mark has 1 to 256 bytes, and what is relayed is the text itself.
  pub parse_server_message-Sound : Sound text (parse_server_message json text)
  unfolding parse_server_message Sound
  parse_server_message-Sound = elim (Bool-cases (ltb max_message_bytes (length text))) [
    | inl t ↦ rw (t, parse_server_message) tt
    | inr t ↦ elim (Bool-cases (nesting_too_deep text)) [
      | inl u ↦ rw (t, u, parse_server_message) tt
      | inr u ↦ rw (t, u, parse_server_message) (read_parsed-Sound (json.parse text))
    ]
  ]
