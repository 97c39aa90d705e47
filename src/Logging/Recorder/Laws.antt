-- ===== src/Logging/Recorder/Laws.antt =====
-- internal/logging/recorder.go: what a recorder gives back.
use claude_oauth_proxy.Base.{
  ◌∙◌, map-append, arith, eq_iff, ◌++◌, some, none, ℕ, ◌+◌, String, ◌==◌, ◌≡◌, refl, false, Option,
  some, List, [], ◌∷◌, Dict, get, put, get-put, if◌then◌else◌, is_empty,
}
use claude_oauth_proxy.Logging.{entry, Entry, Field, text}
use claude_oauth_proxy.Logging.Recorder.{
  Recorder, entries_of, fields_map, append, key_at, fields_from, clone_fields,
}

-- Named fields, as a logger is given them.
abbrev pub listed : List (String × Field) → List Field
listed [] = []
listed ((key, value) ∷ fields) = text key ∷ value ∷ listed fields

-- The last value with this name.
abbrev pub last_of : String → List (String × Field) → Option Field → Option Field
last_of name [] found = found
last_of name ((key, value) ∷ fields) found =
    last_of name fields (if key == name then some value else found)

abbrev pub AllNamed : List (String × Field) → Type 0
AllNamed [] = Unit
AllNamed ((key, value) ∷ fields) = (is_empty key ≡ false) × AllNamed fields

fields_from-get :
    (name : String) (i : ℕ) (out : Dict Field) (fields : List (String × Field))
    → AllNamed fields
    → get name (fields_from i out (listed fields)) ≡ last_of name fields (get name out)
unfolding fields_from
fields_from-get name i out [] h = refl
fields_from-get name i out ((key, value) ∷ fields) (named, h) =
    rw (named, ← get-put key name value out)
      (fields_from-get name (i + 2) (put key value out) fields h)

-- No name stands twice in a map.
abbrev pub Distinct : Dict Field → Type 0
Distinct [] = Unit
Distinct ((key, value) ∷ fields) = (get key fields ≡ none) × Distinct fields

put-Distinct :
    (key : String) (value : Field) (fields : Dict Field)
    → Distinct fields
    → Distinct (put key value fields)
unfolding put get
put-Distinct key value [] h = (refl, tt)
put-Distinct key value ((k, v) ∷ fields) (absent, h) =
    let rest = put-Distinct key value fields h in
    ground (arith, get-put key k value fields, eq_iff key k, eq_iff k key, rest)

fields_from-Distinct :
    (i : ℕ) (out : Dict Field) (fields : List (String × Field))
    → Distinct out
    → Distinct (fields_from i out (listed fields))
unfolding fields_from
fields_from-Distinct i out [] h = h
fields_from-Distinct i out ((key, value) ∷ fields) h =
    fields_from-Distinct (i + 2) (put (key_at i (text key)) value out) fields
      (put-Distinct (key_at i (text key)) value out h)

last_of-absent :
    (name : String) (fields : Dict Field) (found : Option Field)
    → get name fields ≡ none
    → last_of name fields found ≡ found
unfolding get
last_of-absent name [] found h = refl
last_of-absent name ((key, value) ∷ fields) found h =
    ground (arith, last_of-absent name fields found)

last_of-get :
    (name : String) (fields : Dict Field)
    → Distinct fields
    → last_of name fields none ≡ get name fields
unfolding get
last_of-get name [] h = refl
last_of-get name ((key, value) ∷ fields) (absent, h) =
    ground
      (arith, last_of-get name fields h, last_of-absent name fields (some value), eq_iff key name)

clone_fields-get :
    (name : String) (out fields : Dict Field)
    → get name (clone_fields out fields) ≡ last_of name fields (get name out)
unfolding clone_fields
clone_fields-get name out [] = refl
clone_fields-get name out ((key, value) ∷ fields) =
    rw (← get-put key name value out) (clone_fields-get name (put key value out) fields)

-- What a recorder gives back of an entry with named fields has under each name the last value that was
-- logged under it, and no other.
pub append-entries_of :
    (level event name : String) (fields : List (String × Field)) (r : Recorder)
    → AllNamed fields
    → (r' : Recorder) × (e : Entry) × (append level event (listed fields) (some r) ≡ some r')
      × (entries_of r' ≡ entries_of r ++ e ∷ [])
      × (e.level ≡ level)
      × (e.event ≡ event)
      × (get name e.fields ≡ last_of name fields none)
unfolding append fields_map entries_of get
append-entries_of level event name fields r h =
    let stored = fields_from 0 [] (listed fields) in
    (
      record { entries = r.entries ++ entry level event stored ∷ [] },
      entry level event (clone_fields [] stored),
      refl,
      map-append _ r.entries (entry level event stored ∷ []),
      refl,
      refl,
      clone_fields-get name [] stored
          ∙ last_of-get name stored (fields_from-Distinct 0 [] fields tt)
          ∙ fields_from-get name 0 [] fields h,
    )
