-- ===== src/Resource/Statements.antt =====
-- resource/resource.go: the statements that the Validate methods of the resource types are made of,
-- over their variables `skip` and `results` and the warnings that the process has given so far.
pub mod Shape
pub mod Skipping
pub mod Warned
pub mod Warnings
pub mod Returning
use syver.Prelude.{
  String, concat, str_eq, Bool, true, false, not, ◌&&◌, List, [], ◌∷◌, ◌++◌, any, Result, ok, err,
  ◌>>=◌, if◌then◌else◌, Option, none, some,
}
use syver.Value.{Value, Values, none_left, item, nil, str, ℤ}
use syver.Resource.{Read}
use syver.Resource.Results.{TestResult}
use syver.Resource.Skips.{should_skip, Validation, returned, panicked}
use syver.Resource.Validating.{Actual, Matcher, validate_value}
use syver.Resource.Numbers.{atoi}

-- `isSet`
unfoldable pub is_set : Value → Bool
is_set nil = false
is_set (Value.list none_left) = false
is_set _ = true

-- `v, ok := i.([]interface{}); ok && len(v) == 0`
unfoldable pub is_empty_list : Value → Bool
is_empty_list (Value.list none_left) = true
is_empty_list _ = false

-- `warnSpecOnce`: `warnedSpec` holds the keys that were warned of.
unfoldable pub warn_spec_once : String → List String → List String
warn_spec_once key warned = if any (λ k. str_eq k key) warned then warned else warned ++ key ∷ []

unfoldable pub warn_empty_once : String → List String → List String
unfolding warn_spec_once
warn_empty_once desc warned = warn_spec_once (concat "empty-list:" desc) warned

-- The warning of `isSetWarnEmpty`; `own_skip` is the resource's own field.
unfoldable pub warn_empty : Bool → String → Value → List String → List String
unfolding is_empty_list warn_empty_once
warn_empty own_skip desc expected warned =
    if is_empty_list expected && not own_skip then warn_empty_once desc warned else warned

-- The variables of a Validate method.
pub record Sheet : Type 0 where
  pub skip : Bool
  pub results : List TestResult
  pub warned : List String

-- A property, what the spec expects of it, and the method that answers for it. The first text of
-- the statements that warn is the description of the attribute.
pub data Statement : Type 0 where
  check : String → Value → Actual → Statement
  promote : Statement
  if_set : String → Value → Actual → Statement
  if_set_warn : String → String → Value → Actual → Statement
  if_set_renamed : String → String → String → Value → Actual → Statement
  check_number : String → String → Value → Actual → Statement
  if_set_number : String → String → Value → Actual → Statement
  warn_once : String → Statement

-- `float64(i)` of an int, and `%q` of a text.
pub record Numerals : Type 0 where
  pub to_float : ℤ → Value
  pub quote : String → String

module _ (numerals : Numerals) where
  abbrev as_float : Result String ℤ → Result String Value
  as_float (err e) = err e
  as_float (ok i) = ok (numerals.to_float i)

  -- `deprecateAtoI`: an error is the value of its panic.
  unfoldable pub deprecate_atoi : Value → Result String Value
  unfolding atoi
  deprecate_atoi (str s) = as_float (atoi numerals.quote s)
  deprecate_atoi v = ok v

abbrev is_text : Value → Bool
is_text (str s) = true
is_text _ = false

unfoldable pub warn_number : String → Value → List String → List String
unfolding warn_spec_once
warn_number desc expected warned =
    if is_text expected then warn_spec_once (concat "deprecated-atoi:" desc) warned else warned

module _ (numerals : Numerals) (matcher_of : Value → Result String Matcher)
    (have_patterns : Value → Matcher) (type_name : String) (read : Read) (own_skip : Bool) where
  -- `results = append(results, ValidateValue(...))`
  unfoldable pub add : String → Value → Actual → Sheet → Sheet
  add property expected actual s = record s {
    results =
        s.results
        ++ validate_value matcher_of have_patterns type_name read property expected actual s.skip
          ∷ [];
  }

  -- With the number that `deprecateAtoI` makes of what is expected. A panic ends the method, and
  -- with it what is told of its warnings.
  unfoldable pub add_number : String → String → Value → Actual → Sheet → Result String Sheet
  unfolding add warn_number deprecate_atoi
  add_number desc property expected actual s = do
    number ← deprecate_atoi numerals expected
    ok (add property number actual (record s { warned = warn_number desc expected s.warned }))

  unfoldable pub perform : Statement → Sheet → Result String Sheet
  unfolding add add_number is_set warn_empty warn_spec_once should_skip
  perform (check property expected actual) s = ok (add property expected actual s)
  perform promote s = ok (if should_skip s.results then record s { skip = true } else s)
  perform (if_set property expected actual) s =
      ok (if is_set expected then add property expected actual s else s)
  perform (if_set_warn desc property expected actual) s =
      let s' = record s { warned = warn_empty own_skip desc expected s.warned } in
      ok (if is_set expected then add property expected actual s' else s')
  perform (if_set_renamed desc key property expected actual) s =
      let s' = record s { warned = warn_empty own_skip desc expected s.warned } in
      ok (
        if is_set expected
        then add property expected actual (record s' { warned = warn_spec_once key s'.warned })
        else s')
  perform (check_number desc property expected actual) s =
      add_number desc property expected actual s
  perform (if_set_number desc property expected actual) s =
      if is_set expected then add_number desc property expected actual s else ok s
  perform (warn_once key) s = ok (record s { warned = warn_spec_once key s.warned })

  unfoldable pub perform_all : List Statement → Sheet → Result String Sheet
  unfolding perform
  perform_all [] s = ok s
  perform_all (st ∷ sts) s = do s' ← perform st s; perform_all sts s'

  -- A Validate method: `skip := x.Skip`, no results yet.
  unfoldable pub validate : List Statement → List String → Result String Sheet
  unfolding perform_all
  validate sts warned = perform_all sts (record { skip = own_skip; results = []; warned = warned })

-- What ValidateSafe sees of it.
abbrev pub outcome : Result String Sheet → Validation
outcome (ok s) = returned s.results
outcome (err problem) = panicked problem
