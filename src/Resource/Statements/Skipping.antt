-- ===== src/Resource/Statements/Skipping.antt =====
-- resource/resource.go, validate.go: what `skip` does to the results of a Validate method.
use syver.Prelude.{
  String, ◌≡◌, refl, sym, ◌∙◌, ap, subst, Bool, true, false, List, [], ◌∷◌, ◌++◌, Result, ok,
  >>=-eq-ok, ok_inj, if◌then◌else◌, All, All-append,
}
use syver.Value.{Value}
use mathlib.Core.List.{append_assoc, append-nil}
use syver.Resource.{Read}
use syver.Resource.Results.{TestResult, skip}
use syver.Resource.Skips.{should_skip}
use syver.Resource.Validating.{Actual, Matcher, validate_value, validate_gomega_value, skip_result}
use syver.Resource.Statements.{
  Statement, check, promote, Sheet, Numerals, add, perform, perform_all, validate,
}
use syver.Resource.Statements.Shape.{Effect, nothing, added, perform-Effect}

-- The result of an attribute that was not checked.
abbrev pub IsSkip : TestResult → Type 0
IsSkip t = (t.result ≡ skip) × (t.skipped ≡ true)

module _ (numerals : Numerals) (matcher_of : Value → Result String Matcher)
    (have_patterns : Value → Matcher) (type_name : String) (read : Read) (own_skip : Bool) where
  skipped-IsSkip :
      (property : String) (expected : Value) (actual : Actual) (b : Bool)
      → b ≡ true
      → IsSkip (validate_value matcher_of have_patterns type_name read property expected actual b)
  unfolding validate_value validate_gomega_value skip_result
  skipped-IsSkip property expected actual true h = (refl, refl)
  skipped-IsSkip property expected actual false h = cc

  -- More results; from a set `skip` on none of them was checked, and it is still set.
  abbrev Skips : Sheet → Sheet → Type 0
  Skips s s' =
      (more : List TestResult) × (s'.results ≡ s.results ++ more)
      × (s.skip ≡ true → (All IsSkip more) × (s'.skip ≡ true))

  Effect-Skips :
      (s s' : Sheet) {names : List String}
      → Effect numerals matcher_of have_patterns type_name read own_skip s s' names
      → Skips s s'
  Effect-Skips s s' (nothing same skips) =
      ([], same ∙ sym (append-nil s.results), λ on. (tt, skips on))
  Effect-Skips s s' (added property expected actual grown same) =
      (_, grown, λ on. ((skipped-IsSkip property expected actual s.skip on, tt), same ∙ on))

  perform_all-Skips :
      (sts : List Statement) (s s' : Sheet)
      → perform_all numerals matcher_of have_patterns type_name read own_skip sts s ≡ ok s'
      → Skips s s'
  unfolding perform_all
  perform_all-Skips [] s s' h =
      let same = sym (ok_inj h) in
      (
        [],
        ap (λ x. x.results) same ∙ sym (append-nil s.results),
        λ on. (tt, ap (λ x. x.skip) same ∙ on),
      )
  perform_all-Skips (st ∷ sts) s s' h =
      let (s1, first, rest) =
        >>=-eq-ok (perform numerals matcher_of have_patterns type_name read own_skip st s) _ h in
      let (more, grown, skips) =
        Effect-Skips s s1 (
          perform-Effect numerals matcher_of have_patterns type_name read own_skip st s s1 first) in
      let (more', grown', skips') = perform_all-Skips sts s1 s' rest in
      (
        more ++ more',
        grown' ∙ ap (λ x. x ++ more') grown ∙ append_assoc s.results more more',
        λ on. (
          All-append IsSkip more more' (skips on).0 (skips' (skips on).1).0,
          (skips' (skips on).1).1,
        ),
      )

  -- The same, where `skip` may have been promoted first.
  from_promoted :
      (b : Bool) (sts : List Statement) (s s' : Sheet)
      → perform_all numerals matcher_of have_patterns type_name read own_skip sts
          (if b then record s { skip = true } else s)
        ≡ ok s'
      → (more : List TestResult) × (s'.results ≡ s.results ++ more) × (b ≡ true → All IsSkip more)
  from_promoted true sts s s' h =
      let (more, grown, skips) = perform_all-Skips sts (record s { skip = true }) s' h in
      (more, grown, λ on. (skips refl).0)
  from_promoted false sts s s' h =
      let (more, grown, skips) = perform_all-Skips sts s s' h in (more, grown, λ on. cc)

  -- A resource whose `skip` is set has every one of its attributes reported as skipped: none is
  -- checked, so none passes and none fails.
  pub validate_skipped :
      (sts : List Statement) (warned : List String) (s : Sheet)
      → own_skip ≡ true
      → validate numerals matcher_of have_patterns type_name read own_skip sts warned ≡ ok s
      → All IsSkip s.results
  unfolding validate
  validate_skipped sts warned s on h =
      let (more, grown, skips) = perform_all-Skips sts _ s h in
      subst (All IsSkip) (sym grown) (skips on).0

  -- A method that begins with a mandatory attribute and promotes its skip reports that attribute
  -- first. When it did not pass, or its value is false, every other attribute is reported as skipped.
  pub validate_promoted :
      (property : String) (expected : Value) (actual : Actual) (sts : List Statement)
      (warned : List String) (s : Sheet)
      → validate numerals matcher_of have_patterns type_name read own_skip
          (check property expected actual ∷ promote ∷ sts)
          warned
        ≡ ok s
      → let first =
          validate_value matcher_of have_patterns type_name read property expected actual
            own_skip in
        (rest : List TestResult) × (s.results ≡ first ∷ rest)
        × (should_skip (first ∷ []) ≡ true → All IsSkip rest)
  unfolding validate perform_all perform add
  validate_promoted property expected actual sts warned s h =
      let first =
        validate_value matcher_of have_patterns type_name read property expected actual own_skip in
      from_promoted (should_skip (first ∷ [])) sts
        (record { skip = own_skip; results = first ∷ []; warned = warned }) s h
