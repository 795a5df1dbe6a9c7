-- ===== src/Resource/Statements/Warned.antt =====
-- resource/resource.go: warnSpecOnce over a list of keys.
use syver.Prelude.{
  String, str_eq, str_eq_self, ◌≡◌, ◌≢◌, refl, subst, inl, inr, Bool, true, false, ◌||◌, List, [],
  ◌∷◌, ◌++◌, All, All-append, any, Bool-cases,
}
use syver.Resource.Statements.{warn_spec_once}

-- A key has been warned of.
abbrev pub Warned : String → List String → Type 0
Warned key warned = any (λ k. str_eq k key) warned ≡ true

abbrev pub Distinct : List String → Type 0
Distinct [] = Unit {0}
Distinct (k ∷ ks) = (All (λ j. k ≢ j) ks) × Distinct ks

unfoldable pub warn_all : List String → List String → List String
unfolding warn_spec_once
warn_all [] warned = warned
warn_all (k ∷ ks) warned = warn_all ks (warn_spec_once k warned)

or_true : (b : Bool) {c : Bool} → c ≡ true → (b || c) ≡ true
or_true true h = refl
or_true false h = h

or_false : (b c : Bool) → (b || c) ≡ false → (b ≡ false) × (c ≡ false)
or_false true c h = cc
or_false false c h = (refl, h)

any-append_left : (key : String) (ks js : List String) → Warned key ks → Warned key (ks ++ js)
any-append_left key [] js h = cc
any-append_left key (k ∷ ks) js h = elim (Bool-cases (str_eq k key)) [
  | inl same ↦ rw same refl
  | inr other ↦
      rw other
        (any-append_left key ks js (subst (λ b. (b || any (λ j. str_eq j key) ks) ≡ true) other h))
]

any-append_last : (key : String) (ks : List String) → Warned key (ks ++ key ∷ [])
any-append_last key [] = rw (str_eq_self key) refl
any-append_last key (k ∷ ks) = or_true (str_eq k key) (any-append_last key ks)

warn_spec_once-Warned :
    (key : String) (warned : List String) → Warned key (warn_spec_once key warned)
unfolding warn_spec_once
warn_spec_once-Warned key warned = elim (Bool-cases (any (λ k. str_eq k key) warned)) [
  | inl seen ↦ rw seen seen
  | inr new ↦ rw new (any-append_last key warned)
]

warn_spec_once-keeps :
    (j key : String) (warned : List String) → Warned j warned → Warned j (warn_spec_once key warned)
unfolding warn_spec_once
warn_spec_once-keeps j key warned h = elim (Bool-cases (any (λ k. str_eq k key) warned)) [
  | inl seen ↦ rw seen h
  | inr new ↦ rw new (any-append_left j warned (key ∷ []) h)
]

ne_of_str_eq : (k key : String) → str_eq k key ≡ false → k ≢ key
ne_of_str_eq k key h e = cc (e, h, str_eq_self key)

Distinct-snoc :
    (key : String) (ks : List String)
    → any (λ k. str_eq k key) ks ≡ false
    → Distinct ks
    → Distinct (ks ++ key ∷ [])
Distinct-snoc key [] h d = (tt, tt)
Distinct-snoc key (k ∷ ks) h d =
    let (other, others) = or_false (str_eq k key) (any (λ j. str_eq j key) ks) h in
    (
      All-append (λ j. k ≢ j) ks (key ∷ []) d.0 (ne_of_str_eq k key other, tt),
      Distinct-snoc key ks others d.1,
    )

warn_spec_once-Distinct :
    (key : String) (warned : List String) → Distinct warned → Distinct (warn_spec_once key warned)
unfolding warn_spec_once
warn_spec_once-Distinct key warned d = elim (Bool-cases (any (λ k. str_eq k key) warned)) [
  | inl seen ↦ rw seen d
  | inr new ↦ rw new (Distinct-snoc key warned new d)
]

pub warn_all-Distinct : (ks warned : List String) → Distinct warned → Distinct (warn_all ks warned)
unfolding warn_all
warn_all-Distinct [] warned d = d
warn_all-Distinct (k ∷ ks) warned d =
    warn_all-Distinct ks (warn_spec_once k warned) (warn_spec_once-Distinct k warned d)

warn_all-keeps :
    (j : String) (ks warned : List String) → Warned j warned → Warned j (warn_all ks warned)
unfolding warn_all
warn_all-keeps j [] warned h = h
warn_all-keeps j (k ∷ ks) warned h =
    warn_all-keeps j ks (warn_spec_once k warned) (warn_spec_once-keeps j k warned h)

pub warn_all-Warned : (ks warned : List String) → All (λ k. Warned k (warn_all ks warned)) ks
unfolding warn_all
warn_all-Warned [] warned = tt
warn_all-Warned (k ∷ ks) warned = (
  warn_all-keeps k ks (warn_spec_once k warned) (warn_spec_once-Warned k warned),
  warn_all-Warned ks (warn_spec_once k warned),
)

pub warn_all-again :
    (ks warned : List String) → All (λ k. Warned k warned) ks → warn_all ks warned ≡ warned
unfolding warn_all warn_spec_once
warn_all-again [] warned h = refl
warn_all-again (k ∷ ks) warned h = rw (h.0) (warn_all-again ks warned h.1)

pub warn_all-append :
    (ks js warned : List String) → warn_all (ks ++ js) warned ≡ warn_all js (warn_all ks warned)
unfolding warn_all
warn_all-append [] js warned = refl
warn_all-append (k ∷ ks) js warned = warn_all-append ks js (warn_spec_once k warned)
