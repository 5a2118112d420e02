-- ===== src/Protocol.antt =====
-- core/include/audiofork/protocol.hpp and core/src/protocol.cpp: the messages of the wire. The JSON
-- library is not the repository's: `JsonLibrary` holds the operations of it that the code calls.
pub mod Guards
pub mod Nesting
mod Tests
use mod_audio_fork.Common.{
  ℕ, ◌+◌, ◌-◌, ◌*◌, ◌%◌, ◌^◌, Bool, true, false, not, ◌&&◌, ◌||◌, Option, none, some, List, [], ◌∷◌,
  ltb, leb, ◌==◌, if◌then◌else◌, length, Text, codes, same_text,
}

-- `parse` gives none where the library's value is discarded; `as_string` and `as_unsigned` give the
-- value where `is_string` and `is_number_unsigned` hold.
pub record JsonLibrary (J : Type 0) : Type 0 where
  pub parse : Text → Option J
  pub dump : J → Text
  pub string : Text → J
  pub number : ℕ → J
  pub object : List (Text × J) → J
  pub set : Text → J → J → J
  pub is_object : J → Bool
  pub find : Text → J → Option J
  pub as_string : J → Option Text
  pub as_unsigned : J → Option ℕ

pub data ServerMessage : Type 0 where
  start_playback : (sample_rate channels : ℕ) → ServerMessage
  clear_playback : ServerMessage
  playback_mark : (name : Text) → ServerMessage
  server_disconnect : ServerMessage
  relay_to_app : (payload : Text) → ServerMessage
  invalid_message : (reason : Text) → ServerMessage

abbrev pub max_message_bytes : ℕ
max_message_bytes = 65536

abbrev pub max_nesting_depth : ℕ
max_nesting_depth = 64

abbrev pub is_open : ℕ → Bool
is_open c = (c == 123) || (c == 91)

abbrev pub is_close : ℕ → Bool
is_close c = (c == 125) || (c == 93)

-- The loop of `NestingTooDeep`; 34 is the quotation mark and 92 the backslash.
unfoldable pub nesting_loop : (depth : ℕ) → (in_string escaped : Bool) → Text → Bool
nesting_loop depth in_string escaped [] = false
nesting_loop depth true true (c ∷ cs) = nesting_loop depth true false cs
nesting_loop depth true false (c ∷ cs) =
    nesting_loop depth (not (c == 34) || (c == 92)) (c == 92) cs
nesting_loop depth false escaped (c ∷ cs) =
    let quoted = nesting_loop depth true escaped cs in
    let opened = nesting_loop (depth + 1) false escaped cs in
    let closed = nesting_loop (depth - 1) false escaped cs in
    let other = nesting_loop depth false escaped cs in
    if c == 34
    then quoted
    else if is_open c
    then (if ltb max_nesting_depth (depth + 1) then true else opened)
    else if is_close c
    then closed
    else other

unfoldable pub nesting_too_deep : Text → Bool
unfolding nesting_loop
nesting_too_deep text = nesting_loop 0 false false text

abbrev pub valid_sample_rate : ℕ → Bool
valid_sample_rate rate = leb 8000 rate && leb rate 48000

abbrev pub dtmf_digits : Text
dtmf_digits = codes "0123456789*#ABCD"

abbrev pub has_digit : ℕ → Text → Bool
has_digit digit [] = false
has_digit digit (c ∷ cs) = (c == digit) || has_digit digit cs

module _ {J : Type 0} (json : JsonLibrary J) where
  -- `message` without metadata, and with the metadata that parses.
  abbrev pub with_metadata : J → Text → Option J
  with_metadata message [] = some message
  with_metadata message (c ∷ cs) = elim (json.parse (c ∷ cs)) [
    | none ↦ none
    | some metadata ↦ some (json.set (codes "metadata") metadata message)
  ]

  unfoldable pub encode_hello :
      (call_sid : Text) (sample_rate channels : ℕ) (metadata_json : Text) → Option Text
  encode_hello call_sid sample_rate channels metadata_json =
      if length call_sid == 0
        || not (valid_sample_rate sample_rate)
        || ltb channels 1
        || ltb 2 channels
      then none
      else elim (with_metadata
          (json.object (
            (codes "type", json.string (codes "hello"))
            ∷ (codes "version", json.string (codes "1.0"))
            ∷ (codes "callSid", json.string call_sid)
            ∷ (codes "rate", json.number sample_rate)
            ∷ (codes "channels", json.number channels)
            ∷ (codes "encoding", json.string (codes "L16"))
            ∷ []))
          metadata_json) [ none ↦ none | some message ↦ some (json.dump message) ]

  unfoldable pub encode_resume : (gap_ms dropped_ms : ℕ) → Text
  encode_resume gap_ms dropped_ms = json.dump (
      json.object (
        (codes "type", json.string (codes "resume"))
        ∷ (codes "gapMs", json.number gap_ms)
        ∷ (codes "droppedMs", json.number dropped_ms)
        ∷ []))

  unfoldable pub encode_dtmf : (digit duration_ms : ℕ) → Option Text
  encode_dtmf digit duration_ms =
      if has_digit digit dtmf_digits
      then some (
          json.dump (
            json.object (
              (codes "type", json.string (codes "dtmf"))
              ∷ (codes "digit", json.string (digit ∷ []))
              ∷ (codes "durationMs", json.number duration_ms)
              ∷ [])))
      else none

  unfoldable pub encode_bye : Text
  encode_bye = json.dump (json.object ((codes "type", json.string (codes "bye")) ∷ []))

  abbrev pub read_mark : Option J → ServerMessage
  read_mark none = invalid_message (codes "mark requires a string name")
  read_mark (some value) = elim (json.as_string value) [
    | none ↦ invalid_message (codes "mark requires a string name")
    | some name ↦
        if length name == 0 || ltb 256 (length name)
        then invalid_message (codes "mark name length out of bounds")
        else playback_mark name
  ]

  abbrev pub read_channels : ℕ → Option J → ServerMessage
  read_channels rate none = start_playback rate 0
  read_channels rate (some value) = elim (json.as_unsigned value) [
    | none ↦ invalid_message (codes "start_playback channels must be an unsigned integer")
    | some channels ↦
        if ltb channels 1 || ltb 2 channels
        then invalid_message (codes "start_playback channels out of range")
        else start_playback rate (channels % 2 ^ 8)
  ]

  abbrev pub read_rate : Option J → Option J → ServerMessage
  read_rate none channels = read_channels 0 channels
  read_rate (some value) channels = elim (json.as_unsigned value) [
    | none ↦ invalid_message (codes "start_playback rate must be an unsigned integer")
    | some rate ↦
        if not (valid_sample_rate (rate % 2 ^ 32)) || ltb 48000 rate
        then invalid_message (codes "start_playback rate out of range")
        else read_channels (rate % 2 ^ 32) channels
  ]

  -- A message with a type, of the text.
  abbrev pub read_typed : Text → J → Text → ServerMessage
  read_typed text message type =
      if same_text type (codes "clear")
      then clear_playback
      else if same_text type (codes "disconnect")
      then server_disconnect
      else if same_text type (codes "mark")
      then read_mark (json.find (codes "name") message)
      else if same_text type (codes "start_playback")
      then read_rate (json.find (codes "rate") message) (json.find (codes "channels") message)
      else relay_to_app text

  abbrev pub read_type : Text → J → Option J → ServerMessage
  read_type text message none = relay_to_app text
  read_type text message (some value) = elim (json.as_string value) [
    | none ↦ relay_to_app text
    | some type ↦ read_typed text message type
  ]

  abbrev pub read_parsed : Text → Option J → ServerMessage
  read_parsed text none = invalid_message (codes "not valid JSON")
  read_parsed text (some message) =
      if not (json.is_object message)
      then relay_to_app text
      else read_type text message (json.find (codes "type") message)

  unfoldable pub parse_server_message : Text → ServerMessage
  unfolding nesting_too_deep
  parse_server_message text =
      if ltb max_message_bytes (length text)
      then invalid_message (codes "message exceeds size limit")
      else if nesting_too_deep text
      then invalid_message (codes "nesting exceeds depth limit")
      else read_parsed text (json.parse text)
