-- ===== src/Serve.antt =====
-- serve.go: the verdict of the health endpoint, and the results it keeps between requests.
pub mod Status
pub mod Requests
pub mod Sweeps
pub mod Bursts
pub mod Progress
pub mod Content
mod Tests
use syver.Prelude.{
  ℕ, String, Bool, true, false, List, [], ◌∷◌, Option, none, some, if◌then◌else◌, Result, ok, err,
}
use syver.Resource.Results.{TestResult, fail, is_fail, no_matcher_result}

-- The inner loop of `anyFailed`.
unfoldable pub group_failed : List TestResult → Bool
group_failed [] = false
group_failed (r ∷ rs) = if is_fail r.result then true else group_failed rs

-- `anyFailed`
unfoldable pub any_failed : List (List TestResult) → Bool
unfolding group_failed
any_failed [] = false
any_failed (group ∷ groups) = if group_failed group then true else any_failed groups

-- The status code that `output` sets.
unfoldable pub output_status : Bool → ℕ
output_status failed = if failed then 503 else 200

-- `validate`: the groups of a run, or a failing result in place of an error; `spec` is `h.c.Spec`.
unfoldable pub validate : String → Result String (List (List TestResult)) → List (List TestResult)
validate spec (ok groups) = groups
validate spec (err problem) =
    (record {
      successful = false;
      skipped = false;
      skip_reason = "";
      resource_id = spec;
      resource_type = "Syverfile";
      property = "validation";
      title = "";
      result = fail;
      error = some problem;
      matcher_result = no_matcher_result;
    }
      ∷ [])
    ∷ []
