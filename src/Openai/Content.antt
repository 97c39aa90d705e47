-- ===== src/Openai/Content.antt =====
-- internal/openai/types.go: the JSON forms of a message's content.
use Prim.Native.String
use mathlib.Core.Option
use claude_oauth_proxy.Base.{
  ◌⧺◌, String, Bool, Option, none, some, ◌==◌, ◌||◌, is_empty, if◌then◌else◌, names_field, ◌≡◌,
  refl,
}
use claude_oauth_proxy.Core.{Result, ok, err}
use claude_oauth_proxy.Json.{
  Json, null, string, array, Items, nil, item, decode_struct, decode_string,
}

pub record Part : Type 0 where
  pub kind : String
  pub text : String

set_part_field : String → Json → Part → Option Part
set_part_field key v p =
    if names_field "type" key
    then Option.map (λ s. record p { kind = s }) (decode_string v p.kind)
    else if names_field "text" key
    then Option.map (λ s. record p { text = s }) (decode_string v p.text)
    else some p

decode_part : Json → Option Part
decode_part j = decode_struct set_part_field j (record { kind = ""; text = "" })

-- Every part is decoded before the first is looked at.
decode_parts : Items → Bool
decode_parts nil = Bool.true
decode_parts (item j js) = elim (decode_part j) [ none ↦ Bool.false | some p ↦ decode_parts js ]

-- The loop over the parts. (%q also escapes what is not printable in the type.)
join_parts : String → Items → Result String String
join_parts text nil = ok text
join_parts text (item j js) = elim (decode_part j) [
  | none ↦ err "decode message content"
  | some p ↦
      if is_empty p.kind || p.kind == "text"
      then join_parts (String.◌++◌ text p.text) js
      else err ("unsupported message content type \"" ⧺ p.kind ⧺ "\"")
]

-- `UnmarshalJSON`
unfoldable pub unmarshal_content : Json → Result String String
unfolding decode_parts join_parts decode_part set_part_field decode_struct decode_string names_field
    Option.bind
unmarshal_content null = ok ""
unmarshal_content (string s) = ok s
unmarshal_content (array js) =
    if decode_parts js then join_parts "" js else err "decode message content"
unmarshal_content _ = err "decode message content"

-- `MarshalJSON`
unfoldable pub marshal_content : String → Json
marshal_content text = string text

-- What was marshalled is read back as the same text.
pub unmarshal-marshal_content : (text : String) → unmarshal_content (marshal_content text) ≡ ok text
unfolding unmarshal_content marshal_content
unmarshal-marshal_content text = refl
