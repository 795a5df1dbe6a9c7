-- ===== src/Resource/Skips.antt =====
-- resource/resource.go: shouldSkip, promotedSkipReason and annotateSkipReasons;
-- resource/skip.go: SkipResourceResults; resource/panic.go: ValidateSafe.
pub mod Laws
pub mod Safe
use syver.Prelude.{
  String, concat, str_eq, Bool, true, false, not, ◌&&◌, ◌||◌, List, [], ◌∷◌, Option, none, some,
  if◌then◌else◌,
}
use syver.Value.{Value, is_false}
use syver.Resource.{Resource, Read, yaml_key}
use syver.Resource.Results.{
  TestResult, MatcherResult, Verdict, success, fail, skip, is_success, no_matcher_result,
}
use syver.Resource.Reason.{one_line_skip_reason}

abbrev is_set_error : Option String → Bool
is_set_error none = false
is_set_error (some e) = true

-- `first.Err != nil || first.Result != SUCCESS`
abbrev pub not_passed : TestResult → Bool
not_passed first = is_set_error first.error || not (is_success first.result)

unfoldable pub should_skip : List TestResult → Bool
should_skip [] = false
should_skip (first ∷ rest) = not_passed first || is_false first.matcher_result.actual

unfoldable pub promoted_skip_reason : TestResult → String
promoted_skip_reason first =
    if not_passed first
    then concat first.property " did not pass"
    else if is_false first.matcher_result.actual
    then concat first.property " is false"
    else ""

-- The body of the loop of `annotateSkipReasons`.
unfoldable pub annotate : String → TestResult → TestResult
annotate reason t =
    if t.skipped && str_eq t.skip_reason "" then record t { skip_reason = reason } else t

unfoldable pub annotate_all : String → List TestResult → List TestResult
annotate_all reason [] = []
annotate_all reason (t ∷ ts) = annotate reason t ∷ annotate_all reason ts

-- `skip_reason` is the resource's `GetSkipReason()`, if it has that method.
abbrev own_reason : Option String → String
own_reason none = ""
own_reason (some reason) = one_line_skip_reason reason

-- The reason that `annotateSkipReasons` fills in, from the first result.
unfoldable pub reason_from : Option String → TestResult → String
reason_from skip_reason first =
    if first.skipped then own_reason skip_reason else promoted_skip_reason first

unfoldable pub annotate_skip_reasons : Option String → List TestResult → List TestResult
unfolding annotate_all annotate reason_from promoted_skip_reason
annotate_skip_reasons skip_reason [] = []
annotate_skip_reasons skip_reason (first ∷ rest) =
    let reason = reason_from skip_reason first in
    if str_eq reason "" then first ∷ rest else annotate_all reason (first ∷ rest)

abbrev skip_id : Resource → Option Read → String
skip_id res (some r) = r.id
skip_id res none = res.type_key

abbrev pub read_title : Option Read → String
read_title (some r) = r.title
read_title none = ""

-- `SkipResourceResults`
unfoldable pub skip_resource_results : Resource → String → List TestResult
skip_resource_results res reason =
    record {
      successful = false;
      skipped = true;
      skip_reason = one_line_skip_reason reason;
      resource_id = skip_id res res.read;
      resource_type = res.type_name;
      property = "depends-on";
      title = read_title res.read;
      result = skip;
      error = some (one_line_skip_reason reason);
      matcher_result = no_matcher_result;
    }
    ∷ []

-- `resourceIDFor`
unfoldable pub resource_id_for : Resource → String
resource_id_for res = elim res.read [
  | some r ↦ r.id
  | none ↦ if str_eq (yaml_key res) "" then res.type_key else yaml_key res
]

-- What `res.Validate` does: it returns results, or it panics with a value, given here as printed.
pub data Validation : Type 0 where
  returned : List TestResult → Validation
  panicked : String → Validation

-- `panicResults`
unfoldable pub panic_results : Resource → String → List TestResult
panic_results res rec =
    record {
      successful = false;
      skipped = false;
      skip_reason = "";
      resource_id = resource_id_for res;
      resource_type = res.type_name;
      property = "panic";
      title = read_title res.read;
      result = fail;
      error = some (concat "panic: " rec);
      matcher_result = no_matcher_result;
    }
    ∷ []

-- `ValidateSafe`
unfoldable pub validate_safe : Resource → Option String → Validation → List TestResult
unfolding panic_results resource_id_for annotate_skip_reasons
validate_safe res skip_reason (returned results) = annotate_skip_reasons skip_reason results
validate_safe res skip_reason (panicked rec) = panic_results res rec
