-- ===== src/Resource/Statements/Shape.antt =====
-- resource/resource.go: what each statement of a Validate method adds to `results`.
use syver.Prelude.{
  String, ◌≡◌, refl, sym, ◌∙◌, ap, Bool, true, false, List, [], ◌∷◌, ◌++◌, map, Result, ok, err,
  >>=-eq-ok, ok_inj, ◌>>=◌, subst, if◌then◌else◌,
}
use syver.Value.{Value}
use mathlib.Core.List.{append_assoc, append-nil, map-append}
use syver.Resource.{Read}
use syver.Resource.Results.{TestResult}
use syver.Resource.Skips.{should_skip}
use syver.Resource.Validating.{Actual, Matcher, validate_value}
use syver.Resource.Validating.Laws.{validate_value-property}
use syver.Resource.Statements.{
  Statement, check, promote, if_set, if_set_warn, if_set_renamed, check_number, if_set_number,
  warn_once, Sheet, warn_number, Numerals, is_set, add, add_number, perform, perform_all, validate,
  deprecate_atoi,
}

-- The attributes that a statement checks: it depends on the spec alone.
unfoldable pub asserted_by : Statement → List String
unfolding is_set
asserted_by (check property expected actual) = property ∷ []
asserted_by promote = []
asserted_by (if_set property expected actual) = if is_set expected then property ∷ [] else []
asserted_by (if_set_warn desc property expected actual) =
    if is_set expected then property ∷ [] else []
asserted_by (if_set_renamed desc key property expected actual) =
    if is_set expected then property ∷ [] else []
asserted_by (check_number desc property expected actual) = property ∷ []
asserted_by (if_set_number desc property expected actual) =
    if is_set expected then property ∷ [] else []
asserted_by (warn_once key) = []

unfoldable pub asserted : List Statement → List String
unfolding asserted_by
asserted [] = []
asserted (st ∷ sts) = asserted_by st ++ asserted sts

abbrev pub properties : List TestResult → List String
properties ts = map (λ t. t.property) ts

module _ (numerals : Numerals) (matcher_of : Value → Result String Matcher)
    (have_patterns : Value → Matcher) (type_name : String) (read : Read) (own_skip : Bool) where
  -- What one statement does to the variables: it adds no result, and may only set `skip`; or it adds
  -- the result of one attribute, and leaves `skip`.
  pub data Effect (s s' : Sheet) : List String → Type 0 where
    nothing : s'.results ≡ s.results → (s.skip ≡ true → s'.skip ≡ true) → Effect s s' []
    added :
        (property : String) (expected : Value) (actual : Actual)
        → s'.results
          ≡ s.results
            ++ validate_value matcher_of have_patterns type_name read property expected actual
                s.skip
              ∷ []
        → s'.skip ≡ s.skip
        → Effect s s' (property ∷ [])

  abbrev pub Gives : Sheet → List String → Result String Sheet → Type 0
  Gives s names (err problem) = Unit
  Gives s names (ok s') = Effect s s' names

  Effect-if :
      (b : Bool) {s x y : Sheet} {property : String}
      → Effect s x (property ∷ [])
      → Effect s y []
      → Effect s (if b then x else y) (if b then property ∷ [] else [])
  Effect-if true e f = e
  Effect-if false e f = f

  promoted-Effect : (b : Bool) (s : Sheet) → Effect s (if b then record s { skip = true } else s) []
  promoted-Effect true s = nothing refl (λ h. refl)
  promoted-Effect false s = nothing refl (λ h. h)

  add_number-Gives :
      (desc property : String) (expected : Value) (actual : Actual) (s : Sheet)
      → Gives s (property ∷ []) (
          add_number numerals matcher_of have_patterns type_name read own_skip desc property
            expected actual s)
  unfolding add_number add
  add_number-Gives desc property expected actual s = given (deprecate_atoi numerals expected)
    where
      given :
          (number : Result String Value)
          → Gives s (property ∷ []) (
              number >>= λ v. ok (
                add numerals matcher_of have_patterns type_name read own_skip property v actual
                  (record s { warned = warn_number desc expected s.warned })))
      given (err problem) = tt
      given (ok v) = added property v actual refl refl

  if_number-Gives :
      (b : Bool) (s : Sheet) (property : String) (r : Result String Sheet)
      → Gives s (property ∷ []) r
      → Gives s (if b then property ∷ [] else []) (if b then r else ok s)
  if_number-Gives true s property r g = g
  if_number-Gives false s property r g = nothing refl (λ h. h)

  perform-Gives :
      (st : Statement) (s : Sheet)
      → Gives s
          (asserted_by st)
          (perform numerals matcher_of have_patterns type_name read own_skip st s)
  unfolding perform asserted_by add
  perform-Gives (check property expected actual) s = added property expected actual refl refl
  perform-Gives promote s = promoted-Effect (should_skip s.results) s
  perform-Gives (if_set property expected actual) s =
      Effect-if (is_set expected) (added property expected actual refl refl) (nothing refl (λ h. h))
  perform-Gives (if_set_warn desc property expected actual) s =
      Effect-if (is_set expected) (added property expected actual refl refl) (nothing refl (λ h. h))
  perform-Gives (if_set_renamed desc key property expected actual) s =
      Effect-if (is_set expected) (added property expected actual refl refl) (nothing refl (λ h. h))
  perform-Gives (check_number desc property expected actual) s =
      add_number-Gives desc property expected actual s
  perform-Gives (if_set_number desc property expected actual) s =
      if_number-Gives (is_set expected) s property
        (add_number numerals matcher_of have_patterns type_name read own_skip desc property expected
          actual s)
        (add_number-Gives desc property expected actual s)
  perform-Gives (warn_once key) s = nothing refl (λ h. h)

  pub perform-Effect :
      (st : Statement) (s s' : Sheet)
      → perform numerals matcher_of have_patterns type_name read own_skip st s ≡ ok s'
      → Effect s s' (asserted_by st)
  perform-Effect st s s' h = subst (Gives s (asserted_by st)) h (perform-Gives st s)

  Effect-properties :
      {s s' : Sheet} {names : List String}
      → Effect s s' names
      → properties s'.results ≡ properties s.results ++ names
  Effect-properties {s = s} (nothing same skips) =
      ap properties same ∙ sym (append-nil (properties s.results))
  Effect-properties {s = s} (added property expected actual grown same) =
      ap properties grown
      ∙ map-append (λ t. t.property) s.results _
      ∙ ap (λ name. properties s.results ++ name ∷ [])
          (validate_value-property matcher_of have_patterns type_name read property expected actual
            s.skip)

  perform_all-properties :
      (sts : List Statement) (s s' : Sheet)
      → perform_all numerals matcher_of have_patterns type_name read own_skip sts s ≡ ok s'
      → properties s'.results ≡ properties s.results ++ asserted sts
  unfolding perform_all asserted
  perform_all-properties [] s s' h =
      sym (append-nil (properties s'.results))
      ∙ ap (λ x. properties x ++ []) (ap (λ t. t.results) (sym (ok_inj h)))
  perform_all-properties (st ∷ sts) s s' h =
      let (s1, first, rest) =
        >>=-eq-ok (perform numerals matcher_of have_patterns type_name read own_skip st s) _ h in
      perform_all-properties sts s1 s' rest
      ∙ ap (λ names. names ++ asserted sts) (Effect-properties (perform-Effect st s s1 first))
      ∙ append_assoc (properties s.results) (asserted_by st) (asserted sts)

  -- When a Validate method returns, its results are those of the attributes that its statements
  -- assert, one each and in their order: whatever the system answers, the same attributes are
  -- reported, and a skip drops none.
  pub validate-properties :
      (sts : List Statement) (warned : List String) (s : Sheet)
      → validate numerals matcher_of have_patterns type_name read own_skip sts warned ≡ ok s
      → properties s.results ≡ asserted sts
  unfolding validate
  validate-properties sts warned s h = perform_all-properties sts _ s h
