-- ===== src/Matchers.antt =====
-- matchers/: the matchers that a spec is turned into, and what `Match` answers. The leaves that only
-- wrap a matcher of gomega are parameters.
pub mod Transforms
pub mod Compile
pub mod Groups
pub mod Patterns
pub mod Semver
mod Tests
use syver.Prelude.{
  ℕ, String, Bool, true, false, not, List, [], ◌∷◌, Option, none, some, Result, ok, err,
}
use syver.Value.{Value, ℤ}
use syver.Matchers.Patterns.{Stop, failed, panic}
use syver.Matchers.Patterns.Search.{Outcome, have_patterns_match}
use syver.Matchers.Semver.{semver_match}
use syver.Matchers.Transforms.{Transformer, Formats, transform}

-- One constructor for each type that implements `SyverMatcher`.
mutual
  pub data SyverMatcher : Type 0 where
    equal : Value → SyverMatcher
    be_numerically : String → Value → SyverMatcher
    have_prefix : String → SyverMatcher
    have_suffix : String → SyverMatcher
    match_regexp : String → SyverMatcher
    contain_substring : String → SyverMatcher
    have_len : ℤ → SyverMatcher
    have_patterns : Value → SyverMatcher
    be_semver_constraint : String → SyverMatcher
    have_key : SyverMatcher → SyverMatcher
    contain_element : SyverMatcher → SyverMatcher
    contain_elements : SyverMatchers → SyverMatcher
    consist_of : SyverMatchers → SyverMatcher
    negation : SyverMatcher → SyverMatcher
    conjunction : SyverMatchers → SyverMatcher
    disjunction : SyverMatchers → SyverMatcher
    with_safe_transform : Transformer → SyverMatcher → SyverMatcher

  pub data SyverMatchers : Type 0 where
    no_matchers : SyverMatchers
    matchers : SyverMatcher → SyverMatchers → SyverMatchers

-- `(success bool, err error)`
abbrev pub Answer : Type 0
Answer = Bool × Option String

-- The `Match` of the matchers that gomega decides, at what they are given: those of elements get
-- the `Match` of their elements' matchers.
pub record Leaves : Type 0 where
  pub equal_match : Value → Value → Answer
  pub numeric_match : String → Value → Value → Answer
  pub prefix_match : String → Value → Answer
  pub suffix_match : String → Value → Answer
  pub regexp_match : String → Value → Answer
  pub substring_match : String → Value → Answer
  pub len_match : ℤ → Value → Answer
  pub key_match : (Value → Answer) → Value → Answer
  pub element_match : (Value → Answer) → Value → Answer
  pub elements_match : List (Value → Answer) → Value → Answer
  pub consist_match : List (Value → Answer) → Value → Answer

-- `NotMatcher.Match`, from the answer of its matcher.
unfoldable pub not_match : Answer → Answer
not_match (success, some e) = (false, some e)
not_match (success, none) = (not success, none)

-- `AndMatcher.Match`
abbrev and_step : Answer → Answer → Answer
and_step (true, none) rest = rest
and_step (true, some e) rest = (false, some e)
and_step (false, e) rest = (false, e)

unfoldable pub and_match : List (Value → Answer) → Value → Answer
and_match [] actual = (true, none)
and_match (m ∷ ms) actual = and_step (m actual) (and_match ms actual)

-- `OrMatcher.Match`
abbrev or_step : Answer → Answer → Answer
or_step (success, some e) rest = (false, some e)
or_step (true, none) rest = (true, none)
or_step (false, none) rest = rest

unfoldable pub or_match : List (Value → Answer) → Value → Answer
or_match [] actual = (false, none)
or_match (m ∷ ms) actual = or_step (m actual) (or_match ms actual)

-- `WithSafeTransformMatcher.Match`: a transformer that fails decides.
abbrev transformed : (String → String) → (Value → Answer) → Result String Value → Answer
transformed wrap m (err e) = (false, some (wrap e))
transformed wrap m (ok v) = m v

-- The answer of a search for patterns; it has no panic to tell.
abbrev searched : Result Stop Outcome → Answer
searched (ok o) = (o.success, none)
searched (err (failed e)) = (false, some e)
searched (err panic) = (false, some "panic")

module _ (formats : Formats) (leaves : Leaves) (Version : Type 0) (parse : String → Option Version)
    (parse_range : String → Option (Version → Bool)) where
  unfoldable mutual
    unfolding not_match and_match or_match transform have_patterns_match semver_match

    pub match : SyverMatcher → Value → Answer
    match (equal x) = leaves.equal_match x
    match (be_numerically comparator x) = leaves.numeric_match comparator x
    match (have_prefix s) = leaves.prefix_match s
    match (have_suffix s) = leaves.suffix_match s
    match (match_regexp s) = leaves.regexp_match s
    match (contain_substring s) = leaves.substring_match s
    match (have_len n) = leaves.len_match n
    match (have_patterns elements) =
        λ actual. searched (have_patterns_match formats.compile formats.object elements actual)
    match (be_semver_constraint s) = semver_match Version parse parse_range formats.object s
    match (have_key m) = leaves.key_match (match m)
    match (contain_element m) = leaves.element_match (match m)
    match (contain_elements ms) = leaves.elements_match (match_each ms)
    match (consist_of ms) = leaves.consist_match (match_each ms)
    match (negation m) = λ actual. not_match (match m actual)
    match (conjunction ms) = and_match (match_each ms)
    match (disjunction ms) = or_match (match_each ms)
    match (with_safe_transform t m) =
        λ actual. transformed (formats.wrap t) (match m) (transform formats t actual)

    pub match_each : SyverMatchers → List (Value → Answer)
    match_each no_matchers = []
    match_each (matchers m ms) = match m ∷ match_each ms
