-- ===== src/Matchers/Patterns/Safe.antt =====
-- matchers/have_patterns.go: newRegexPattern indexes no empty text.
use Prim.Native.Char.{code}
use syver.Prelude.{
  String, ◌≡◌, ◌≢◌, refl, subst, Bool, true, false, ◌&&◌, ◌||◌, List, [], ◌∷◌, Option, none, some,
  Result, ok, err, ◌>>=◌, if◌then◌else◌, ◌==◌,
}
use syver.Value.{Value, Values, none_left, item, str, list, nil, bool, int, float, strings, table}
use syver.Matchers.Patterns.Texts.{starts_with, trim_prefix, raw_lines}
use syver.Matchers.Patterns.{
  Pattern, Stop, failed, panic, is_regex_pattern, trim_left, new_regex_pattern, new_string_pattern,
  compiled, slice_to_patterns,
}
use syver.Matchers.Patterns.Search.{
  scan, elements_of, text_of, search_lines, search, have_patterns_match, concluded,
}

-- It did not panic.
abbrev NoPanic : {A : Type 0} → Result Stop A → Type 0
NoPanic (err panic) = ⊥
NoPanic _ = Unit

bind-NoPanic :
    {A B : Type 0} (first : Result Stop A) (next : A → Result Stop B)
    → NoPanic first
    → ((a : A) → NoPanic (next a))
    → NoPanic (first >>= next)
bind-NoPanic (err panic) next h k = absurd h
bind-NoPanic (err (failed e)) next h k = tt
bind-NoPanic (ok a) next h k = k a

and_true : (b c : Bool) → (b && c) ≡ true → b ≡ true
and_true true c h = refl
and_true false c h = cc

if-NoPanic : {A : Type 0} (b : Bool) (x y : A) → NoPanic {A = A} (if b then ok x else ok y)
if-NoPanic true x y = tt
if-NoPanic false x y = tt

-- A text that begins with a slash is not empty.
trim_left-NoPanic : (s : String) → starts_with b'/' s ≡ true → NoPanic (trim_left s)
unfolding starts_with trim_left
trim_left-NoPanic String.[] h = cc
trim_left-NoPanic (String.◌∷◌ c s) h =
    if-NoPanic (code c == b'\\' || code c == b'/') s (String.◌∷◌ c s)

module _ (compile : String → Result String (String → Bool)) where
  compiled-NoPanic :
      (s : String) (inverse : Bool) (re : Result String (String → Bool))
      → NoPanic (compiled compile s inverse re)
  compiled-NoPanic s inverse (err e) = tt
  compiled-NoPanic s inverse (ok re) = tt

  new_regex_pattern-NoPanic :
      (s : String) → is_regex_pattern s ≡ true → NoPanic (new_regex_pattern compile s)
  unfolding is_regex_pattern new_regex_pattern
  new_regex_pattern-NoPanic s h =
      bind-NoPanic (trim_left (trim_prefix b'!' s)) _
        (trim_left-NoPanic (trim_prefix b'!' s)
          (and_true (starts_with b'/' (trim_prefix b'!' s)) _ h))
        λ clean. compiled-NoPanic s (starts_with b'!' s) _

  chosen-NoPanic :
      (b : Bool) (s : String)
      → is_regex_pattern s ≡ b
      → NoPanic (if b then new_regex_pattern compile s else ok (new_string_pattern s))
  chosen-NoPanic true s h = new_regex_pattern-NoPanic s h
  chosen-NoPanic false s h = tt

  slice_to_patterns-NoPanic : (ss : List String) → NoPanic (slice_to_patterns compile ss)
  unfolding slice_to_patterns
  slice_to_patterns-NoPanic [] = tt
  slice_to_patterns-NoPanic (s ∷ ss) =
      bind-NoPanic _ _ (chosen-NoPanic (is_regex_pattern s) s refl) λ pat.
        bind-NoPanic (slice_to_patterns compile ss) _ (slice_to_patterns-NoPanic ss) λ pats. tt

  module _ (object : Value → String) where
    elements_of-NoPanic : (vs : Values) → NoPanic (elements_of compile object vs)
    unfolding elements_of
    elements_of-NoPanic none_left = tt
    elements_of-NoPanic (item (str s) vs) =
        bind-NoPanic (elements_of compile object vs) _ (elements_of-NoPanic vs) λ rest. tt
    elements_of-NoPanic (item nil vs) = tt
    elements_of-NoPanic (item (bool b) vs) = tt
    elements_of-NoPanic (item (int i) vs) = tt
    elements_of-NoPanic (item (float x) vs) = tt
    elements_of-NoPanic (item (strings ss) vs) = tt
    elements_of-NoPanic (item (list ws) vs) = tt
    elements_of-NoPanic (item (table es) vs) = tt

    text_of-NoPanic : (v : Value) → NoPanic (text_of v)
    unfolding text_of
    text_of-NoPanic (str s) = tt
    text_of-NoPanic (strings ss) = tt
    text_of-NoPanic nil = tt
    text_of-NoPanic (bool b) = tt
    text_of-NoPanic (int i) = tt
    text_of-NoPanic (float x) = tt
    text_of-NoPanic (list ws) = tt
    text_of-NoPanic (table es) = tt

    concluded-NoPanic :
        (elements : List String) (found notfound : List Pattern) (problem : Option String)
        → NoPanic (concluded elements found notfound problem)
    concluded-NoPanic elements found notfound none = tt
    concluded-NoPanic elements found notfound (some e) = tt

    search-NoPanic :
        (elements : List String) (pats : List Pattern) (actual : Value)
        → NoPanic (search elements pats actual)
    unfolding search search_lines
    search-NoPanic elements [] actual = tt
    search-NoPanic elements (pat ∷ pats) actual =
        bind-NoPanic (text_of actual) _ (text_of-NoPanic actual) λ text.
          let scanned = scan (raw_lines text) (pat ∷ pats) in
          concluded-NoPanic elements scanned.found scanned.notfound scanned.problem

    match-NoPanic :
        (expected actual : Value) → NoPanic (have_patterns_match compile object expected actual)
    unfolding have_patterns_match
    match-NoPanic (list vs) actual =
        bind-NoPanic (elements_of compile object vs) _ (elements_of-NoPanic vs) λ elements.
          bind-NoPanic (slice_to_patterns compile elements) _ (slice_to_patterns-NoPanic elements)
            λ pats. search-NoPanic elements pats actual
    match-NoPanic nil actual = tt
    match-NoPanic (bool b) actual = tt
    match-NoPanic (int i) actual = tt
    match-NoPanic (float x) actual = tt
    match-NoPanic (str s) actual = tt
    match-NoPanic (strings ss) actual = tt
    match-NoPanic (table es) actual = tt

    -- Whatever a spec expects and the text is, the matcher returns an answer or an error: no pattern
    -- that is taken for an expression makes newRegexPattern index an empty text.
    pub have_patterns_match_safe :
        (expected actual : Value) → have_patterns_match compile object expected actual ≢ err panic
    have_patterns_match_safe expected actual h = subst NoPanic h (match-NoPanic expected actual)
