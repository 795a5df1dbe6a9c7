-- ===== src/Resource/Validating.antt =====
-- resource/validate.go: ValidateValue and ValidateGomegaValue, one attribute of a resource against
-- what its spec expects. The matcher of a spec value is a parameter.
pub mod Accepting
pub mod Laws
use syver.Prelude.{String, Bool, true, false, Option, none, some, Result, ok, err}
use syver.Value.{Value, nil, str}
use syver.Resource.{Resource, Read}
use syver.Resource.Results.{
  MatcherResult, TestResult, Verdict, success, fail, skip, no_matcher_result,
}

-- A method of the system that answers for an attribute: one that gives a value of one of the listed
-- types; one that opens a stream, which has then to be read to its end; or one of another signature.
pub data Actual : Type 0 where
  value_method : Result String Value → Actual
  reader_method : Result String (Result String String) → Actual
  other_signature : Actual

-- `matchers.SyverMatcher`: `Match` returns a verdict and an error, which may both be there.
pub record Matcher : Type 0 where
  pub match : Value → Bool × Option String
  pub failure_result : Value → MatcherResult

abbrev is_list : Value → Bool
is_list (Value.list vs) = true
is_list _ = false

-- The text that the new `func() (string, error)` of `ValidateValue` answers with.
abbrev read_all : Result String (Result String String) → Result String Value
read_all (err e) = err e
read_all (ok (err e)) = err e
read_all (ok (ok text)) = ok (str text)

-- The head of `ValidateValue`.
unfoldable pub as_text : Value → Actual → Actual
as_text expected (reader_method r) = elim (is_list expected) [
  | true ↦ reader_method r
  | false ↦ value_method (read_all r)
]
as_text expected (value_method r) = value_method r
as_text expected other_signature = other_signature

-- `foundValue` and `gomegaMatcher`, or `err`: `matcher_of` is `matcherToGomegaMatcher`, and
-- `have_patterns` is `matchers.HavePatterns`.
module _ (matcher_of : Value → Result String Matcher) (have_patterns : Value → Matcher) where
  abbrev with_value : Value → Result String Matcher → Result String (Value × Matcher)
  with_value found (err e) = err e
  with_value found (ok m) = ok (found, m)

  unfoldable pub prepare : Value → Actual → Result String (Value × Matcher)
  prepare expected (value_method (err e)) = err e
  prepare expected (value_method (ok found)) = with_value found (matcher_of expected)
  prepare expected (reader_method (err e)) = err e
  prepare expected (reader_method (ok (err e))) = err e
  prepare expected (reader_method (ok (ok text))) = ok (str text, have_patterns expected)
  prepare expected other_signature = err "unknown method signature"

  -- The result, of a resource with the given type name, `ID()` and `GetTitle()`.
  module _ (type_name : String) (read : Read) (property : String) where
    -- The fields that every result of the attribute shares.
    abbrev blank : TestResult
    blank = record {
      successful = false;
      skipped = false;
      skip_reason = "";
      resource_id = read.id;
      resource_type = type_name;
      property = property;
      title = read.title;
      result = success;
      error = none;
      matcher_result = no_matcher_result;
    }

    abbrev passes : Value → Value → Option String → TestResult
    passes expected found e = record blank {
      error = e;
      matcher_result = record {
        actual = found;
        message = "matches expectation";
        expected = expected;
      };
    }

    abbrev matched : Value → Value → Matcher → Bool × Option String → TestResult
    matched expected found m (true, e) = passes expected found e
    matched expected found m (false, e) = record blank {
      result = fail;
      error = e;
      matcher_result = m.failure_result found;
    }

    unfoldable pub judge : Value → Result String (Value × Matcher) → TestResult
    judge expected (err e) = record blank { result = fail; error = some e }
    judge expected (ok (found, m)) = matched expected found m (m.match found)

    -- `skipResult`
    unfoldable pub skip_result : TestResult
    skip_result = record blank { result = skip; skipped = true }

    unfoldable pub validate_gomega_value : Value → Actual → Bool → TestResult
    unfolding judge skip_result prepare
    validate_gomega_value expected actual true = skip_result
    validate_gomega_value expected actual false = judge expected (prepare expected actual)

    unfoldable pub validate_value : Value → Actual → Bool → TestResult
    unfolding as_text validate_gomega_value
    validate_value expected actual skip_it =
        validate_gomega_value expected (as_text expected actual) skip_it
