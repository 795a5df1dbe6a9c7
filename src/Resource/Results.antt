-- ===== src/Resource/Results.antt =====
-- resource/validate.go: the result of one check, and the outcome names. Times, durations and
-- `meta:` are left out.
use syver.Prelude.{String, Bool, true, false, Option}
use syver.Value.{Value, nil}

-- SUCCESS, FAIL, SKIP, UNKNOWN
pub data Verdict : Type 0 where
  success fail skip unknown : Verdict

-- `matchers.MatcherResult`, of which this package reads the two values and the message.
pub record MatcherResult : Type 0 where
  pub actual : Value
  pub message : String
  pub expected : Value

pub record TestResult : Type 0 where
  pub successful : Bool
  pub skipped : Bool
  pub skip_reason : String
  pub resource_id : String
  pub resource_type : String
  pub property : String
  pub title : String
  pub result : Verdict
  pub error : Option String
  pub matcher_result : MatcherResult

abbrev pub no_matcher_result : MatcherResult
no_matcher_result = record { actual = nil; message = ""; expected = nil }

-- `ToOutcome`
unfoldable pub to_outcome : TestResult → String
to_outcome t = elim t.result [
  | success ↦ "pass"
  | fail ↦ "fail"
  | skip ↦ "skip"
  | unknown ↦ "unknown"
]

abbrev pub is_fail : Verdict → Bool
is_fail fail = true
is_fail _ = false

abbrev pub is_success : Verdict → Bool
is_success success = true
is_success _ = false
