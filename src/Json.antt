-- ===== src/Json.antt =====
-- JSON documents, and the decoding of package encoding/json as the program uses it: a document is
-- decoded into a value that is there already, `null` leaves it as it is, a key is matched without
-- regard to case, a key of no field is passed over, and a later key overwrites an earlier one.
pub mod Raw
use mathlib.Core.Option
use claude_oauth_proxy.Base.{ℤ, String, Bool, Option, none, some, List, [], ◌∷◌, if◌then◌else◌}
use claude_oauth_proxy.Base.{fits_int64}

mutual
  pub data Json : Type 0 where
    null : Json
    bool : Bool → Json
    -- an integer literal, and any other number, by its text
    number : ℤ → Json
    decimal : String → Json
    string : String → Json
    array : Items → Json
    object : Members → Json

  pub data Items : Type 0 where
    nil : Items
    item : Json → Items → Items

  pub data Members : Type 0 where
    end : Members
    member : String → Json → Members → Members

unfoldable pub decode_string : Json → String → Option String
decode_string null old = some old
decode_string (string s) old = some s
decode_string _ old = none

unfoldable pub decode_int64 : Json → ℤ → Option ℤ
decode_int64 null old = some old
decode_int64 (number n) old = if fits_int64 n then some n else none
decode_int64 _ old = none

decode_items : Items → Option (List String)
decode_items nil = some []
decode_items (item j js) =
    Option.bind (decode_string j "")
      (λ s. Option.map (λ (l : List String). s ∷ l) (decode_items js))

unfoldable pub decode_strings : Json → List String → Option (List String)
unfolding decode_items decode_string
decode_strings null old = some []
decode_strings (array js) old = decode_items js
decode_strings _ old = none

module _ {T : Type 0} (set_field : String → Json → T → Option T) where
  decode_members : Members → T → Option T
  decode_members end t = some t
  decode_members (member key value ms) t = Option.bind (set_field key value t) (decode_members ms)

  unfoldable pub decode_struct : Json → T → Option T
  unfolding decode_members
  decode_struct null t = some t
  decode_struct (object ms) t = decode_members ms t
  decode_struct _ t = none
