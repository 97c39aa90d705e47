-- ===== src/Runtime/Config/Laws.antt =====
-- internal/runtime/config.go: what `Validate` accepts, and what the environment can set.
use claude_oauth_proxy.Base.{
  pos, mul64, is_positive, ℕ, Bool-cases, ◌∙◌, sym, ℤ, String, ◌≡◌, refl, Bool, true, false, not,
  Option, none, some, List, [], ◌∷◌, ◌⊎◌, inl, inr, all, arith, is_blank, is_empty, trim_space,
}
use claude_oauth_proxy.Tokens.{Duration}
use claude_oauth_proxy.Runtime.ByteSize.{parse_int, split_unit, sized, parse_byte_size}
use claude_oauth_proxy.Runtime.Config.{
  ok, Config, validate, texts, durations, first_blank, first_bad, labelled, duration_error,
  error_of, or_else,
}

-- A loop over a map meets its entries, and nothing else.
pub record Visits (visit : List (String × String) → List (String × String)) : Type 0 where
  pub every : (p : String × String → Bool) (m : List (String × String)) → all p (visit m) ≡ all p m

abbrev written : String × String → Bool
written e = not (is_blank e.1)

is_none : Option String → Bool
is_none none = true
is_none (some e) = false

first_blank-all : (m : List (String × String)) → all written m ≡ true → first_blank m ≡ none
first_blank-all [] h = refl
first_blank-all ((label, value) ∷ m) h = ground (arith, first_blank-all m)

all-first_blank : (m : List (String × String)) → first_blank m ≡ none → all written m ≡ true
all-first_blank [] h = refl
all-first_blank ((label, value) ∷ m) h = ground (arith, all-first_blank m)

labelled-eq-none :
    (label : String) (o rest : Option String)
    → labelled label o rest ≡ none
    → (o ≡ none) × (rest ≡ none)
labelled-eq-none label none rest h = (refl, h)
labelled-eq-none label (some e) rest h = cc

or_else-eq-none : (o next : Option String) → or_else o next ≡ none → (o ≡ none) × (next ≡ none)
or_else-eq-none none next h = (refl, h)
or_else-eq-none (some e) next h = cc

-- ParseByteSize gives an error or a size.
sized-error_of :
    (size : ℕ) (o : Option ℤ) → error_of (sized size o) ≡ none → (n : ℤ) × (sized size o ≡ ok n)
unfolding sized
sized-error_of size none h = cc
sized-error_of size (some n) h = elim (Bool-cases (is_positive n)) [
  | inl p ↦ (mul64 n (pos size), rw p refl)
  | inr p ↦ absurd (ground arith)
]

parse_byte_size-error_of :
    (raw : String) → error_of (parse_byte_size raw) ≡ none → (n : ℤ) × (parse_byte_size raw ≡ ok n)
unfolding parse_byte_size
parse_byte_size-error_of raw h = elim (Bool-cases (is_empty (trim_space raw))) [
  | inl e ↦ absurd (ground arith)
  | inr e ↦ rw e (
      sized-error_of (split_unit (trim_space raw)).1
        (parse_int (trim_space (split_unit (trim_space raw)).0)) (rw e at h))
]

module _ (parse : String → String ⊎ Duration) where
  abbrev readable : String × String → Bool
  readable e = is_none (duration_error (parse e.1))

  all-first_bad : (m : List (String × String)) → first_bad parse m ≡ none → all readable m ≡ true
  unfolding is_none
  all-first_bad [] h = refl
  all-first_bad ((label, value) ∷ m) h =
      let (now, later) =
        labelled-eq-none label (duration_error (parse value)) (first_bad parse m) h in
      rw now (all-first_bad m later)

  first_bad-all : (m : List (String × String)) → all readable m ≡ true → first_bad parse m ≡ none
  unfolding is_none
  first_bad-all [] h = refl
  first_bad-all ((label, value) ∷ m) h = ground (arith, first_bad-all m)

  -- What Validate asks for: ten texts that are not blank, three durations and a size.
  pub record IsValid (c : Config) : Type 0 where
    pub present : first_blank (texts c) ≡ none
    pub timeout : (d : Duration) × (parse c.request_timeout ≡ inr d)
    pub interval : (d : Duration) × (parse c.refresh_interval ≡ inr d)
    pub skew : (d : Duration) × (parse c.refresh_skew ≡ inr d)
    pub size : (n : ℤ) × (parse_byte_size c.max_request_body ≡ ok n)

  duration_error-none :
      (r : String ⊎ Duration) → is_none (duration_error r) ≡ true → (d : Duration) × (r ≡ inr d)
  unfolding is_none
  duration_error-none (inl e) h = cc
  duration_error-none (inr d) h = (d, refl)

  module _ (visit : List (String × String) → List (String × String)) (visits : Visits visit) where
    first_blank-visit :
        (m : List (String × String)) → first_blank (visit m) ≡ none → first_blank m ≡ none
    first_blank-visit m h = first_blank-all m (sym (visits.every written m) ∙ all-first_blank _ h)

    visit-first_blank :
        (m : List (String × String)) → first_blank m ≡ none → first_blank (visit m) ≡ none
    visit-first_blank m h = first_blank-all _ (visits.every written m ∙ all-first_blank m h)

    pub validate-IsValid : (c : Config) → validate visit parse c ≡ none → IsValid c
    unfolding validate
    validate-IsValid c h =
        let (present, more) = or_else-eq-none _ _ h in
        let (timed, sized) = or_else-eq-none _ _ more in
        let (given, _) = labelled-eq-none _ _ _ sized in
        let all_read : all readable (durations c) ≡ true =
          sym (visits.every readable (durations c)) ∙ all-first_bad _ timed in
        record {
          present = first_blank-visit (texts c) present;
          timeout = duration_error-none _ (ground arith);
          interval = duration_error-none _ (ground arith);
          skew = duration_error-none _ (ground arith);
          size = parse_byte_size-error_of _ given;
        }

    pub IsValid-validate : (c : Config) → IsValid c → validate visit parse c ≡ none
    unfolding validate is_none
    IsValid-validate c v =
        let (t, timeout) = v.timeout in
        let (i, interval) = v.interval in
        let (k, skew) = v.skew in
        let (n, size) = v.size in
        rw
          (
            visit-first_blank (texts c) v.present,
            first_bad-all (visit (durations c))
                (visits.every readable (durations c) ∙ rw (timeout, interval, skew) refl),
            size,
          )
          refl
