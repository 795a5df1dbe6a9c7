-- ===== src/Resource/Skips/Safe.antt =====
-- The panic barrier around one resource.
use syver.Prelude.{
  String, concat, str_eq, ◌≡◌, refl, List, [], ◌∷◌, Option, some, Bool-cases, map, arith, inl, inr,
}
use syver.Resource.{Resource}
use syver.Resource.Results.{TestResult, Verdict, fail}
use syver.Resource.Skips.{
  annotate, annotate_all, annotate_skip_reasons, reason_from, Validation, returned, panicked,
  validate_safe, resource_id_for,
}

abbrev pub verdicts : List TestResult → List Verdict
verdicts ts = map (λ (t : TestResult). t.result) ts

annotate-result : (reason : String) (t : TestResult) → (annotate reason t).result ≡ t.result
unfolding annotate
annotate-result reason t = ground arith

annotate_all-verdicts :
    (reason : String) (ts : List TestResult) → verdicts (annotate_all reason ts) ≡ verdicts ts
unfolding annotate_all
annotate_all-verdicts reason [] = refl
annotate_all-verdicts reason (t ∷ ts) =
    cc (annotate-result reason t, annotate_all-verdicts reason ts)

annotate_skip_reasons-verdicts :
    (own : Option String) (ts : List TestResult)
    → verdicts (annotate_skip_reasons own ts) ≡ verdicts ts
unfolding annotate_skip_reasons
annotate_skip_reasons-verdicts own [] = refl
annotate_skip_reasons-verdicts own (t ∷ ts) = elim (Bool-cases (str_eq (reason_from own t) "")) [
  | inl empty ↦ rw empty refl
  | inr given ↦ rw given (annotate_all-verdicts (reason_from own t) (t ∷ ts))
]

-- The report that stands for a validation.
abbrev pub Reports : Resource → Validation → List TestResult → Type 0
Reports res (returned results) out = verdicts out ≡ verdicts results
Reports res (panicked rec) out =
    (verdicts out ≡ fail ∷ [])
    × (map (λ (t : TestResult). t.resource_id) out ≡ resource_id_for res ∷ [])
    × (map (λ (t : TestResult). t.error) out ≡ some (concat "panic: " rec) ∷ [])

-- What ValidateSafe reports: the verdicts of a check that returns are its own, in order; a check
-- that panics gives one failing result, which names the resource and carries the panic's value.
pub validate_safe_lem :
    (res : Resource) (own : Option String) (v : Validation)
    → Reports res v (validate_safe res own v)
unfolding validate_safe
validate_safe_lem res own (returned results) = annotate_skip_reasons-verdicts own results
validate_safe_lem res own (panicked rec) = (refl, refl, refl)
