-- ===== src/Protocol/Tests.antt =====
-- Runs of core/src/protocol.cpp over a JSON library that reads two messages.
use mod_audio_fork.Common.{
  ℕ, ◌≡◌, refl, true, false, Option, none, some, List, [], ◌∷◌, ltb, if◌then◌else◌, Text, codes,
  same_text,
}
use mod_audio_fork.Protocol.{
  JsonLibrary, playback_mark, nesting_too_deep, nesting_loop, parse_server_message,
}
use mod_audio_fork.Protocol.Guards.{Sound, parse_server_message-Sound}
use mod_audio_fork.Protocol.Nesting.{
  Items, end, other, quoted, group, plain, escape, render, nesting_too_deep-depth,
}

data Json : Type 0 where
  word : Text → Json
  count : ℕ → Json
  no_fields : Json
  field : Text → (value behind : Json) → Json

abbrev lookup : Text → Json → Option Json
lookup k (field j v fs) = let rest = lookup k fs in if same_text j k then some v else rest
lookup k _ = none

abbrev fields : List (Text × Json) → Json
fields [] = no_fields
fields ((k, v) ∷ fs) = field k v (fields fs)

abbrev mark_message : Json
mark_message =
    fields ((codes "type", word (codes "mark")) ∷ (codes "name", word (codes "intro")) ∷ [])

abbrev library : JsonLibrary Json
library = record {
  parse = λ text.
      if same_text text (codes "{\"type\":\"mark\",\"name\":\"intro\"}")
      then some mark_message
      else none;
  dump = λ j. [];
  string = word;
  number = count;
  object = fields;
  set = field;
  is_object = λ j. elim j [ word t ↦ false | count n ↦ false | _ ↦ true ];
  find = lookup;
  as_string = λ j. elim j [ word t ↦ some t | _ ↦ none ];
  as_unsigned = λ j. elim j [ count n ↦ some n | _ ↦ none ];
}

abbrev message : Text
message = codes "{\"type\":\"mark\",\"name\":\"intro\"}"

parse_mark : parse_server_message library message ≡ playback_mark (codes "intro")
unfolding parse_server_message nesting_loop
parse_mark = refl

parse_server_message-Sound_example : Sound message (parse_server_message library message)
parse_server_message-Sound_example = parse_server_message-Sound library message

-- `{"[\"":[]}`
abbrev items : Items
items =
    group false (quoted (plain 91 refl ∷ escape 34 ∷ []) (other 58 refl (group true end end))) end

render-items : render items [] ≡ codes "{\"[\\\"\":[]}"
render-items = refl

nesting_too_deep-depth_example : nesting_too_deep (codes "{\"[\\\"\":[]}") ≡ ltb 64 2
nesting_too_deep-depth_example = nesting_too_deep-depth items
