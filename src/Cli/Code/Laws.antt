-- ===== src/Cli/Code/Laws.antt =====
-- internal/adapters/cli/run.go: what `normalizeCode` finds in what is pasted.
use text.Mathlib.TextLemmas.{cons-append, nil-append, append-nil}
use claude_oauth_proxy.Base.{
  ℕ, String, code, ◌⧺◌, ◌≡◌, refl, ap, true, false, Option, none, some, nat_eq, is_empty,
  trim_space,
}
use claude_oauth_proxy.Cli.Code.Search.{
  Excludes, after-is_empty, after-Excludes, after_label, after-occurs,
}
use claude_oauth_proxy.Cli.Code.{after, cut_at, cut, normalize_code}

-- Whether a text is without a separator.
abbrev Lacks : ℕ → String → Type 0
Lacks separator String.[] = Unit
Lacks separator (String.◌∷◌ c s) = (nat_eq (code c) separator ≡ false) × Lacks separator s

-- An authorization code: no space around it, and neither of the separators in it.
pub record IsCode (c : String) : Type 0 where
  pub given : is_empty c ≡ false
  pub trimmed : trim_space c ≡ c
  pub no_ampersand : Lacks b'&' c
  pub no_hash : Lacks b'#' c

-- What may follow a code: nothing, more parameters, or a fragment (the state).
pub data Tail : String → Type 0 where
  nothing : Tail ""
  parameters : (s : String) → Tail (String.◌∷◌ "&" s)
  fragment : (s : String) → Tail (String.◌∷◌ "#" s)

-- The forms in which a code may be pasted, with what follows it: bare, after the first "code=" of a text
-- that is no URL with a code, and in a URL with a code, as it is decoded.
pub data Pasted (query : String → Option String) (raw c tail : String) : Type 0 where
  bare : trim_space raw ≡ c ⧺ tail → Excludes "code=" (c ⧺ tail) → Pasted query raw c tail
  labelled :
      (front : String)
      → trim_space raw ≡ front ⧺ ("code=" ⧺ (c ⧺ tail))
      → Excludes "code=" (front ⧺ "code")
      → query (trim_space raw) ≡ none
      → Pasted query raw c tail
  unvalued :
      (front v : String)
      → trim_space raw ≡ front ⧺ ("code=" ⧺ (c ⧺ tail))
      → Excludes "code=" (front ⧺ "code")
      → query (trim_space raw) ≡ some v
      → is_empty (trim_space v) ≡ true
      → Pasted query raw c tail
  url :
      (front behind v : String)
      → trim_space raw ≡ front ⧺ ("code=" ⧺ behind)
      → query (trim_space raw) ≡ some v
      → trim_space v ≡ c
      → Pasted query raw c tail

cut_at-append :
    (separator : ℕ) (s t : String)
    → Lacks separator s
    → cut_at separator (s ⧺ t) ≡ s ⧺ cut_at separator t
unfolding cut_at
cut_at-append separator String.[] t h = rw (nil-append t, nil-append (cut_at separator t)) refl
cut_at-append separator (String.◌∷◌ c s) t (solid, h) =
    rw (cons-append c s t, cons-append c s (cut_at separator t), solid)
      (ap (λ (u : String). String.◌∷◌ c u) (cut_at-append separator s t h))

cut_at-Lacks : (separator : ℕ) (s : String) → Lacks separator s → cut_at separator s ≡ s
unfolding cut_at
cut_at-Lacks separator String.[] h = refl
cut_at-Lacks separator (String.◌∷◌ c s) (solid, h) =
    rw solid (ap (λ (u : String). String.◌∷◌ c u) (cut_at-Lacks separator s h))

-- A code is cut off from what follows it.
cut-append : (c tail : String) → IsCode c → Tail tail → cut (c ⧺ tail) ≡ c
unfolding cut_at
cut-append c _ h nothing =
    rw (append-nil c, cut_at-Lacks b'&' c h.no_ampersand, cut_at-Lacks b'#' c h.no_hash) h.trimmed
cut-append c _ h (parameters s) =
    rw
      (
        cut_at-append b'&' c (String.◌∷◌ "&" s) h.no_ampersand,
        append-nil c,
        cut_at-Lacks b'#' c h.no_hash,
      )
      h.trimmed
cut-append c _ h (fragment s) =
    rw
      (
        cut_at-append b'&' c (String.◌∷◌ "#" s) h.no_ampersand,
        cut_at-append b'#' c (String.◌∷◌ "#" (cut_at b'&' s)) h.no_hash,
        append-nil c,
      )
      h.trimmed

append-is_empty : (c tail : String) → is_empty c ≡ false → is_empty (c ⧺ tail) ≡ false
append-is_empty String.[] tail h = cc
append-is_empty (String.◌∷◌ a c) tail h = rw (cons-append a c tail) refl

-- A pasted code is found: bare, after the first "code=" of a text that is no URL with a code, or as
-- the code of a URL; with more parameters or a fragment behind it where it is no URL, and with
-- space around the whole.
pub normalize_code_pasted :
    (query : String → Option String) (raw c tail : String)
    → IsCode c
    → Tail tail
    → Pasted query raw c tail
    → normalize_code query raw ≡ c
unfolding normalize_code
normalize_code_pasted query raw c tail h t (bare e n) =
    rw (e, after-Excludes "code=" (c ⧺ tail) n, append-is_empty c tail h.given)
      (cut-append c tail h t)
normalize_code_pasted query raw c tail h t (labelled front e n q) =
    let found : after "code=" (trim_space raw) ≡ some (c ⧺ tail) =
      rw e (after_label front (c ⧺ tail) n) in
    rw (after-is_empty (trim_space raw) _ found, found, q) (cut-append c tail h t)
normalize_code_pasted query raw c tail h t (unvalued front v e n q b) =
    let found : after "code=" (trim_space raw) ≡ some (c ⧺ tail) =
      rw e (after_label front (c ⧺ tail) n) in
    rw (after-is_empty (trim_space raw) _ found, found, q, b) (cut-append c tail h t)
normalize_code_pasted query raw c tail h t (url front behind v e q same) =
    let (rest, there) = after-occurs "code=" front behind in
    let found : after "code=" (trim_space raw) ≡ some rest = rw e there in
    rw (after-is_empty (trim_space raw) _ found, found, q, same, h.given) refl
