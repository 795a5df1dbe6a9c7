-- ===== src/Resource/Validating/Laws.antt =====
-- The verdicts of ValidateValue.
use syver.Prelude.{
  String, ◌≡◌, refl, sym, subst, ◌↔◌, ◌⊎◌, inl, inr, Bool, true, false, Option, Result, ok, err,
}
use syver.Value.{Value}
use syver.Resource.{Read}
use syver.Resource.Results.{success, fail, skip}
use syver.Resource.Validating.{
  Actual, Matcher, as_text, prepare, judge, validate_gomega_value, validate_value, skip_result,
  matched,
}
use syver.Resource.Validating.Accepting.{Accepted, prepare-Accepted}

module _ (matcher_of : Value → Result String Matcher) (have_patterns : Value → Matcher)
    (type_name : String) (read : Read) (property : String) (expected : Value) where
  -- The verdict, from the answer of `Match`; a result of a check that ran is never a skip.
  matched-verdict :
      (found : Value) (m : Matcher) (answer : Bool × Option String)
      → ((matched matcher_of have_patterns type_name read property expected found m answer).result
          ≡ success)
        ↔ (answer.0 ≡ true)
  matched-verdict found m (true, e) = ((λ h. refl), (λ h. refl))
  matched-verdict found m (false, e) = ((λ h. cc), (λ h. cc))

  same_pair : {x y : Value × Matcher} → Path (Result String (Value × Matcher)) (ok x) (ok y) → x ≡ y
  same_pair e = cc

  judge-Verdict :
      (prepared : Result String (Value × Matcher))
      → ((judge matcher_of have_patterns type_name read property expected prepared).result
          ≡ success)
        ↔ ((found : Value) × (m : Matcher) × (prepared ≡ ok (found, m))
            × ((m.match found).0 ≡ true))
  unfolding judge
  judge-Verdict (err e) = ((λ h. cc), λ (found, m, h, _). cc)
  judge-Verdict (ok (found, m)) =
      let (to, from) = matched-verdict found m (m.match found) in
      (
        (λ h. (found, m, refl, to h)),
        λ (found', m', same, accepted). from (
            subst (λ (q : Value × Matcher). (q.1.match q.0).0 ≡ true) (sym (same_pair same))
              accepted),
      )

  judge-two :
      (prepared : Result String (Value × Matcher))
      → ((judge matcher_of have_patterns type_name read property expected prepared).result
          ≡ success)
        ⊎ ((judge matcher_of have_patterns type_name read property expected prepared).result ≡ fail)
  unfolding judge
  judge-two (err e) = inr refl
  judge-two (ok (found, m)) = two (m.match found)
    where
      two :
          (answer : Bool × Option String)
          → ((matched matcher_of have_patterns type_name read property expected found m
                answer).result
              ≡ success)
            ⊎ ((matched matcher_of have_patterns type_name read property expected found m
                  answer).result
                ≡ fail)
      two (true, e) = inl refl
      two (false, e) = inr refl

  answered-property :
      (found : Value) (m : Matcher) (answer : Bool × Option String)
      → (matched matcher_of have_patterns type_name read property expected found m answer).property
        ≡ property
  answered-property found m (true, e) = refl
  answered-property found m (false, e) = refl

  judge-property :
      (prepared : Result String (Value × Matcher))
      → (judge matcher_of have_patterns type_name read property expected prepared).property
        ≡ property
  unfolding judge
  judge-property (err e) = refl
  judge-property (ok (found, m)) = answered-property found m (m.match found)

  -- A result names the attribute that was checked.
  pub validate_value-property :
      (actual : Actual) (skip_it : Bool)
      → (validate_value matcher_of have_patterns type_name read property expected actual
          skip_it).property
        ≡ property
  unfolding validate_value validate_gomega_value skip_result
  validate_value-property actual true = refl
  validate_value-property actual false =
      judge-property (prepare matcher_of have_patterns expected (as_text expected actual))

module _ (matcher_of : Value → Result String Matcher) (have_patterns : Value → Matcher)
    (type_name : String) (read : Read) (property : String) (expected : Value) where
  -- An attribute that is skipped gives a result with SKIP that is marked as skipped. Any other gives
  -- SUCCESS exactly when the value was found (a stream read to its end), there is a matcher
  -- for what is expected, and that accepts the value; and FAIL else, errors of each of these included.
  pub validate_value_lem :
      (actual : Actual)
      → ((validate_value matcher_of have_patterns type_name read property expected actual
            true).result
          ≡ skip)
        × ((validate_value matcher_of have_patterns type_name read property expected actual
              true).skipped
            ≡ true)
        × (((validate_value matcher_of have_patterns type_name read property expected actual
                false).result
              ≡ success)
            ↔ Accepted matcher_of have_patterns expected actual)
        × (((validate_value matcher_of have_patterns type_name read property expected actual
                false).result
              ≡ success)
            ⊎ ((validate_value matcher_of have_patterns type_name read property expected actual
                  false).result
                ≡ fail))
  unfolding validate_value validate_gomega_value skip_result
  validate_value_lem actual =
      let prepared = prepare matcher_of have_patterns expected (as_text expected actual) in
      let (to, from) =
        judge-Verdict matcher_of have_patterns type_name read property expected prepared in
      let (accepted, prepares) = prepare-Accepted matcher_of have_patterns expected actual in
      (
        refl,
        refl,
        (λ h. accepted (to h), λ h. from (prepares h)),
        judge-two matcher_of have_patterns type_name read property expected prepared,
      )
