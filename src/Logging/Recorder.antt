-- ===== src/Logging/Recorder.antt =====
-- internal/logging/recorder.go: `Recorder` with the fields of its entries; and which entries the logger
-- of internal/logging/logger.go writes.
pub mod Laws
use claude_oauth_proxy.Base.{
  ℕ, suc, ◌+◌, String, ◌⧺◌, Bool, true, false, Option, none, some, List, [], ◌∷◌, ◌++◌, map, Dict,
  put, if◌then◌else◌, is_empty, show_ℕ,
}
use claude_oauth_proxy.Logging.{Field, text, number, flag, Entry, entry}

-- The name of a field: the text before it, or its place where that is empty or no text.
abbrev pub place : ℕ → String
place i = "field_" ⧺ show_ℕ i

unfoldable pub key_at : ℕ → Field → String
key_at i (text s) = if is_empty s then place i else s
key_at i _ = place i

-- The loop of `fieldsMap` from the place `i`, and the field that is left.
unfoldable pub fields_from : ℕ → Dict Field → List Field → Dict Field
unfolding key_at
fields_from i out [] = out
fields_from i out (last ∷ []) = put "field_unpaired" last out
fields_from i out (key ∷ value ∷ rest) = fields_from (i + 2) (put (key_at i key) value out) rest

unfoldable pub fields_map : List Field → Dict Field
unfolding fields_from
fields_map fields = fields_from 0 [] fields

pub record Recorder : Type 0 where
  pub entries : List Entry

abbrev pub new_recorder : Recorder
new_recorder = record { entries = [] }

-- `append`, on a pointer that may be nil.
unfoldable pub append : String → String → List Field → Option Recorder → Option Recorder
unfolding fields_map
append level event fields none = none
append level event fields (some r) =
    some (record { entries = r.entries ++ entry level event (fields_map fields) ∷ [] })

-- `cloneFields`
unfoldable pub clone_fields : Dict Field → Dict Field → Dict Field
clone_fields out [] = out
clone_fields out ((key, value) ∷ fields) = clone_fields (put key value out) fields

unfoldable pub entries_of : Recorder → List Entry
unfolding clone_fields
entries_of r = map (λ (e : Entry). entry e.level e.event (clone_fields [] e.fields)) r.entries

abbrev pub reset : Recorder → Recorder
reset r = record { entries = [] }
