-- ===== src/Cli/Code/Search.antt =====
-- internal/adapters/cli/run.go: what `strings.Index` finds, and what follows it.
use Prim.Native.String
use text.Mathlib.TextLemmas.{cons-append, nil-append, append_assoc, length-cons, length-append}
use text.Mathlib.TextEquality.{Char-path}
use Prim.Native.Char.{Char}
use claude_oauth_proxy.Base.{
  subst, ℕ, String, code, ◌⧺◌, ◌≡◌, ◌≢◌, refl, ap, sym, ◌∙◌, true, false, Option, none, some,
  nat_eq, is_empty, arith, Bool-cases, inl, inr, ◌≤◌, Option-cases,
}
use claude_oauth_proxy.Cli.Code.{strip, after}

-- The pattern stands nowhere in the text.
abbrev pub Excludes : String → String → Type 0
Excludes pattern s = (u v : String) → s ≢ u ⧺ (pattern ⧺ v)

nat_eq_refl : (n : ℕ) → nat_eq n n ≡ true
nat_eq_refl n = ground arith

strip-append : (p s : String) → strip p (p ⧺ s) ≡ some s
strip-append String.[] s = ap some (nil-append s)
strip-append (String.◌∷◌ c p) s = rw (cons-append c p s, nat_eq_refl (code c)) (strip-append p s)

-- A prefix that a longer text begins with is found without what follows it.
strip-short :
    (p x y r : String)
    → String.count p ≤ String.count x
    → strip p (x ⧺ y) ≡ some r
    → (r' : String) × (strip p x ≡ some r')
strip-short String.[] x y r h e = (x, refl)
strip-short (String.◌∷◌ c p) String.[] y r h e = absurd (omega (arith, h, length-cons c p))
strip-short (String.◌∷◌ c p) (String.◌∷◌ d x) y r h e =
    elim (Bool-cases (nat_eq (code d) (code c))) [
      | inl same ↦
          let (r', found) =
            strip-short p x y r (omega (arith, h, length-cons c p, length-cons d x))
              (rw (cons-append d x y, same) at e) in
          (r', rw same found)
      | inr differs ↦
          let missed : Path (Option String) none (some r) = rw (cons-append d x y, differs) at e in
          absurd (cc)
    ]

strip_sound : (p s r : String) → strip p s ≡ some r → s ≡ p ⧺ r
strip_sound String.[] s r e = ground (arith, nil-append r)
strip_sound (String.◌∷◌ c p) String.[] r e = cc
strip_sound (String.◌∷◌ c p) (String.◌∷◌ d s) r e = elim (Bool-cases (nat_eq (code d) (code c))) [
  | inl same ↦
      let tail = strip_sound p s r (rw same at e) in
      let head : d ≡ c = Char-path d c (ground arith) in rw (cons-append c p r, tail, head) refl
  | inr differs ↦ let missed : Path (Option String) none (some r) = rw differs at e in absurd (cc)
]

after-strip : (p s r : String) → strip p s ≡ some r → after p s ≡ some r
unfolding after
after-strip p String.[] r e = e
after-strip p (String.◌∷◌ c s) r e = rw (after, e) refl

after_cons :
    (p : String) (c : Char) (s : String)
    → (rest : String) × (after p s ≡ some rest)
    → (rest : String) × (after p (String.◌∷◌ c s) ≡ some rest)
unfolding after
after_cons p c s (rest, found) = elim (Option-cases (strip p (String.◌∷◌ c s))) [
  | inl missed ↦ (rest, rw (after, missed) found)
  | inr (r, first) ↦ (r, rw (after, first) refl)
]

-- A text that stands in another is found there.
pub after-occurs : (p u v : String) → (rest : String) × (after p (u ⧺ (p ⧺ v)) ≡ some rest)
after-occurs p String.[] v =
    (v, rw (nil-append (p ⧺ v)) (after-strip p (p ⧺ v) v (strip-append p v)))
after-occurs p (String.◌∷◌ c u) v =
    rw (cons-append c u (p ⧺ v)) (after_cons p c _ (after-occurs p u v))

Excludes-cons : (p : String) (c : Char) (s : String) → Excludes p (String.◌∷◌ c s) → Excludes p s
Excludes-cons p c s h u v e =
    h (String.◌∷◌ c u) v (ap (λ (t : String). String.◌∷◌ c t) e ∙ sym (cons-append c u (p ⧺ v)))

strip-Excludes : (p s : String) → Excludes p s → strip p s ≡ none
strip-Excludes p s h = elim (Option-cases (strip p s)) [
  | inl none_found ↦ none_found
  | inr (r, found) ↦ absurd (h "" r (strip_sound p s r found ∙ sym (nil-append (p ⧺ r))))
]

pub after-Excludes : (p s : String) → Excludes p s → after p s ≡ none
unfolding after
after-Excludes p String.[] h = strip-Excludes p "" h
after-Excludes p (String.◌∷◌ c s) h =
    rw (after, strip-Excludes p (String.◌∷◌ c s) h) (after-Excludes p s (Excludes-cons p c s h))

-- What follows the first place is found, where none begins before it.
after_first :
    (q e front rest : String)
    → String.count e ≤ 1
    → Excludes (q ⧺ e) (front ⧺ q)
    → after (q ⧺ e) (front ⧺ ((q ⧺ e) ⧺ rest)) ≡ some rest
unfolding after
after_first q e String.[] rest short h =
    rw (nil-append ((q ⧺ e) ⧺ rest)) (after-strip (q ⧺ e) _ rest (strip-append (q ⧺ e) rest))
after_first q e (String.◌∷◌ c f) rest short h =
    let whole = String.◌∷◌ c (f ⧺ ((q ⧺ e) ⧺ rest)) in
    rw (cons-append c f ((q ⧺ e) ⧺ rest)) (elim (Option-cases (strip (q ⧺ e) whole)) [
      | inl missed ↦
          rw (after, missed)
            (after_first q e f rest short
              (Excludes-cons (q ⧺ e) c (f ⧺ q) (rw (cons-append c f q) at h)))
      | inr (r, found) ↦
          let regroup : whole ≡ (String.◌∷◌ c f ⧺ q) ⧺ (e ⧺ rest) =
            sym (cons-append c f ((q ⧺ e) ⧺ rest))
            ∙ ap (λ (t : String). String.◌∷◌ c f ⧺ t) (append_assoc q e rest)
            ∙ sym (append_assoc (String.◌∷◌ c f) q (e ⧺ rest)) in
          let (r', early) =
            strip-short (q ⧺ e) (String.◌∷◌ c f ⧺ q) (e ⧺ rest) r
              (omega (
                arith,
                short,
                length-append q e,
                length-append (String.◌∷◌ c f) q,
                length-cons c f,
              ))
              (subst (λ (t : String). strip (q ⧺ e) t ≡ some r) regroup found) in
          absurd (h "" r' (strip_sound (q ⧺ e) _ r' early ∙ sym (nil-append ((q ⧺ e) ⧺ r'))))
    ])

pub after_label :
    (front rest : String)
    → Excludes "code=" (front ⧺ "code")
    → after "code=" (front ⧺ ("code=" ⧺ rest)) ≡ some rest
after_label front rest h = after_first "code" "=" front rest (omega arith) h

-- A text with a label is not empty.
pub after-is_empty : (s rest : String) → after "code=" s ≡ some rest → is_empty s ≡ false
unfolding after
after-is_empty String.[] rest h = cc
after-is_empty (String.◌∷◌ c s) rest h = refl

-- Where nothing is found, the pattern stands nowhere.
pub Excludes-after : (p s : String) → after p s ≡ none → Excludes p s
Excludes-after p s h u v e =
    let (rest, found) = after-occurs p u v in
    let contrary : Path (Option String) none (some rest) =
      sym h ∙ ap (λ (t : String). after p t) e ∙ found in
    cc
