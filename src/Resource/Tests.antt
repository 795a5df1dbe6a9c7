-- ===== src/Resource/Tests.antt =====
-- Results of one resource: what the code does with them, and the theorems at them.
use syver.Prelude.{
  List, String, concat, ok, ◌⊎◌, false, ◌≡◌, refl, ◌≢◌, ◌↔◌, [], ◌∷◌, none, some, true, All,
}
use syver.Resource.{Resource, Read}
use syver.Resource.Results.{TestResult, success, fail, skip, no_matcher_result}
use syver.Resource.Reason.{one_line_skip_reason, split_words, fields, join}
use syver.Resource.Reason.Laws.{EachChar, Printed, Words, Spaced, one_line_skip_reason_idem}
use syver.Resource.Skips.{
  should_skip, promoted_skip_reason, annotate_skip_reasons, reason_from, annotate, annotate_all,
  panicked, validate_safe,
}
use syver.Resource.Skips.Laws.{
  Zip, Annotated, should_skip_iff_reason, annotate_skip_reasons_lem,
  annotate_skip_reasons_explained,
}
use syver.Value.{str}
use syver.Resource.Validating.{
  Matcher, reader_method, validate_value, validate_gomega_value, as_text, prepare, judge,
}
use syver.Resource.Validating.Accepting.{Accepted}
use syver.Resource.Validating.Laws.{validate_value_lem}
use syver.Resource.Skips.Safe.{Reports, validate_safe_lem}

abbrev missing : TestResult
missing = record {
  successful = false;
  skipped = false;
  skip_reason = "";
  resource_id = "/bin/app";
  resource_type = "file";
  property = "exists";
  title = "";
  result = fail;
  error = none;
  matcher_result = no_matcher_result;
}

abbrev mode : TestResult
mode = record {
  successful = false;
  skipped = true;
  skip_reason = "";
  resource_id = "/bin/app";
  resource_type = "file";
  property = "mode";
  title = "";
  result = skip;
  error = none;
  matcher_result = no_matcher_result;
}

abbrev binary : Resource
binary = record {
  type_key = "file";
  type_name = "File";
  id_field = some "/bin/app";
  read = some (record { id = "/bin/app"; title = "" });
  depends_on = [];
  skip = false;
}

promoted : should_skip (missing ∷ mode ∷ []) ≡ true
unfolding should_skip
promoted = refl

annotated :
    annotate_skip_reasons none (missing ∷ mode ∷ [])
    ≡ missing ∷ record mode { skip_reason = "exists did not pass" } ∷ []
unfolding annotate_skip_reasons annotate_all annotate reason_from promoted_skip_reason concat
annotated = refl

tidied : one_line_skip_reason " not\n on  CI " ≡ "not on CI"
unfolding one_line_skip_reason split_words fields join concat
tidied = refl

one_line_skip_reason_idem_example :
    ((ws : List String) × Words " not\n on  CI " ws
      × Spaced ws (one_line_skip_reason " not\n on  CI "))
    × EachChar Printed (one_line_skip_reason " not\n on  CI ")
    × (one_line_skip_reason (one_line_skip_reason " not\n on  CI ")
        ≡ one_line_skip_reason " not\n on  CI ")
one_line_skip_reason_idem_example = one_line_skip_reason_idem " not\n on  CI "

should_skip_iff_reason_example :
    (should_skip (missing ∷ mode ∷ []) ≡ true) ↔ (promoted_skip_reason missing ≢ "")
should_skip_iff_reason_example = should_skip_iff_reason missing (mode ∷ [])

annotate_skip_reasons_lem_example :
    Zip
      (Annotated (reason_from none missing))
      (missing ∷ mode ∷ [])
      (annotate_skip_reasons none (missing ∷ mode ∷ []))
annotate_skip_reasons_lem_example = annotate_skip_reasons_lem none missing (mode ∷ [])

annotate_skip_reasons_explained_example :
    All
      (λ t. t.skipped ≡ true → t.skip_reason ≢ "")
      (annotate_skip_reasons none (missing ∷ mode ∷ []))
annotate_skip_reasons_explained_example =
    annotate_skip_reasons_explained none missing (mode ∷ []) refl promoted

validate_safe_lem_example :
    Reports binary (panicked "nil map") (validate_safe binary none (panicked "nil map"))
validate_safe_lem_example = validate_safe_lem binary none (panicked "nil map")

-- A matcher that accepts everything.
abbrev lenient : Matcher
lenient = record { match = λ found. (true, none); failure_result = λ found. no_matcher_result }

abbrev read : Read
read = record { id = "/etc/os"; title = "" }

validated :
    (validate_value
      (λ v. ok lenient)
      (λ v. lenient)
      "File"
      read
      "contents"
      (str "x")
      (reader_method (ok (ok "x")))
      false).result
    ≡ success
unfolding validate_value validate_gomega_value as_text prepare judge
validated = refl

validate_value_lem_example :
    ((validate_value
        (λ v. ok lenient)
        (λ v. lenient)
        "File"
        read
        "contents"
        (str "x")
        (reader_method (ok (ok "x")))
        true).result
      ≡ skip)
    × ((validate_value
          (λ v. ok lenient)
          (λ v. lenient)
          "File"
          read
          "contents"
          (str "x")
          (reader_method (ok (ok "x")))
          true).skipped
        ≡ true)
    × (((validate_value
            (λ v. ok lenient)
            (λ v. lenient)
            "File"
            read
            "contents"
            (str "x")
            (reader_method (ok (ok "x")))
            false).result
          ≡ success)
        ↔ Accepted (λ v. ok lenient) (λ v. lenient) (str "x") (reader_method (ok (ok "x"))))
    × (((validate_value
            (λ v. ok lenient)
            (λ v. lenient)
            "File"
            read
            "contents"
            (str "x")
            (reader_method (ok (ok "x")))
            false).result
          ≡ success)
        ⊎ ((validate_value
              (λ v. ok lenient)
              (λ v. lenient)
              "File"
              read
              "contents"
              (str "x")
              (reader_method (ok (ok "x")))
              false).result
            ≡ fail))
validate_value_lem_example =
    validate_value_lem (λ v. ok lenient) (λ v. lenient) "File" read "contents" (str "x")
      (reader_method (ok (ok "x")))
