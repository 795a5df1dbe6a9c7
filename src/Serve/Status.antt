-- ===== src/Serve/Status.antt =====
-- The status code of the health endpoint.
use syver.Prelude.{
  String, ◌≡◌, refl, sym, subst, ◌↔◌, Bool, true, false, List, [], ◌∷◌, ◌⊎◌, inl, inr, Result, ok,
  err, Bool-cases, arith,
}
use syver.Resource.Results.{TestResult, is_fail}
use syver.Outputs.Exits.{fails, fails_of}
use syver.Serve.{any_failed, group_failed, output_status, validate}

group_failed-fails_of : (rs : List TestResult) → (group_failed rs ≡ false) ↔ (fails_of rs ≡ 0)
unfolding group_failed fails_of
group_failed-fails_of [] = ((λ h. refl), (λ h. refl))
group_failed-fails_of (r ∷ rs) = elim (Bool-cases (is_fail r.result)) [
  | inl failed ↦ rw failed ((λ h. cc), (λ h. absurd (omega (arith, h))))
  | inr other ↦ rw other (
    (λ h. omega (arith, (group_failed-fails_of rs).0 h)),
    λ h. (group_failed-fails_of rs).1 (omega (arith, h)),
  )
]

any_failed-fails :
    (groups : List (List TestResult)) → (any_failed groups ≡ false) ↔ (fails groups ≡ 0)
unfolding any_failed fails
any_failed-fails [] = ((λ h. refl), (λ h. refl))
any_failed-fails (group ∷ groups) =
    let (to, from) = group_failed-fails_of group in
    let (to', from') = any_failed-fails groups in
    elim (Bool-cases (group_failed group)) [
      | inl failed ↦ rw failed (
        (λ h. cc),
        λ h. let none_here : fails_of group ≡ 0 = omega (arith, h) in cc (from none_here, failed),
      )
      | inr passed ↦
          rw passed ((λ h. omega (arith, to passed, to' h)), λ h. from' (omega (arith, h)))
    ]

ok_status : (b : Bool) → (output_status b ≡ 200) ↔ (b ≡ false)
unfolding output_status
ok_status true = ((λ h. ground arith), (λ h. cc))
ok_status false = ((λ h. refl), (λ h. refl))

two_statuses : (b : Bool) → (output_status b ≡ 200) ⊎ (output_status b ≡ 503)
unfolding output_status
two_statuses true = inr refl
two_statuses false = inl refl

ok-eq-ok : {A E : Type 0} {x y : A} → Path (Result E A) (ok x) (ok y) → x ≡ y
ok-eq-ok e = cc

-- The endpoint answers 200 exactly when the run took place and none of its results failed; in every
-- other case, a run that could not start included, it answers 503.
pub output_status_lem :
    (spec : String) (run : Result String (List (List TestResult)))
    → ((output_status (any_failed (validate spec run)) ≡ 200)
        ↔ ((groups : List (List TestResult)) × (run ≡ ok groups) × (fails groups ≡ 0)))
      × ((output_status (any_failed (validate spec run)) ≡ 200)
          ⊎ (output_status (any_failed (validate spec run)) ≡ 503))
unfolding validate output_status any_failed group_failed
output_status_lem spec (ok groups) =
    let (to, from) = any_failed-fails groups in
    let (to_ok, from_ok) = ok_status (any_failed groups) in
    (
      (
        (λ h. (groups, refl, to (to_ok h))),
        λ (other, same, passed).
            from_ok (from (subst (λ g. fails g ≡ 0) (sym (ok-eq-ok same)) passed)),
      ),
      two_statuses (any_failed groups),
    )
output_status_lem spec (err problem) = (((λ h. ground arith), λ (groups, e, p). cc), inr refl)
