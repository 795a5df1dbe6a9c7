-- ===== src/Resource/Statements/Warnings.antt =====
-- resource/resource.go: warnedSpec, the warnings that a Validate method gives through warnSpecOnce.
use syver.Prelude.{
  String, concat, ◌≡◌, refl, sym, ◌∙◌, ap, subst, Bool, true, false, not, ◌&&◌, List, [], ◌∷◌, ◌++◌,
  Result, ok, err, ◌>>=◌, >>=-eq-ok, ok_inj, if◌then◌else◌,
}
use syver.Value.{Value}
use syver.Resource.{Read}
use syver.Resource.Skips.{should_skip}
use syver.Resource.Validating.{Actual, Matcher}
use syver.Resource.Statements.Warned.{
  Distinct, warn_all, warn_all-Distinct, warn_all-Warned, warn_all-again, warn_all-append,
}
use syver.Resource.Statements.{
  Statement, check, promote, if_set, if_set_warn, if_set_renamed, check_number, if_set_number,
  warn_once, Sheet, Numerals, is_set, is_empty_list, is_text, warn_spec_once, warn_empty_once,
  warn_empty, warn_number, add, add_number, perform, perform_all, validate, deprecate_atoi,
}

-- The keys of the warnings that a statement gives: they depend on the spec alone.
abbrev key_if : Bool → String → List String
key_if b key = if b then key ∷ [] else []

abbrev empty_key : Bool → String → Value → List String
empty_key own_skip desc expected =
    key_if (is_empty_list expected && not own_skip) (concat "empty-list:" desc)

abbrev number_key : String → Value → List String
number_key desc expected = key_if (is_text expected) (concat "deprecated-atoi:" desc)

unfoldable keys_of : Bool → Statement → List String
keys_of own_skip (check property expected actual) = []
keys_of own_skip promote = []
keys_of own_skip (if_set property expected actual) = []
keys_of own_skip (if_set_warn desc property expected actual) = empty_key own_skip desc expected
keys_of own_skip (if_set_renamed desc key property expected actual) =
    empty_key own_skip desc expected ++ key_if (is_set expected) key
keys_of own_skip (check_number desc property expected actual) = number_key desc expected
keys_of own_skip (if_set_number desc property expected actual) =
    if is_set expected then number_key desc expected else []
keys_of own_skip (warn_once key) = key ∷ []

unfoldable keys : Bool → List Statement → List String
unfolding keys_of
keys own_skip [] = []
keys own_skip (st ∷ sts) = keys_of own_skip st ++ keys own_skip sts

warn_if :
    (b : Bool) (key : String) (warned : List String)
    → (if b then warn_spec_once key warned else warned) ≡ warn_all (key_if b key) warned
unfolding warn_all
warn_if true key warned = refl
warn_if false key warned = refl

warn_empty-keys :
    (own_skip : Bool) (desc : String) (expected : Value) (warned : List String)
    → warn_empty own_skip desc expected warned ≡ warn_all (empty_key own_skip desc expected) warned
unfolding warn_empty warn_empty_once
warn_empty-keys own_skip desc expected warned =
    warn_if (is_empty_list expected && not own_skip) (concat "empty-list:" desc) warned

warn_number-keys :
    (desc : String) (expected : Value) (warned : List String)
    → warn_number desc expected warned ≡ warn_all (number_key desc expected) warned
unfolding warn_number
warn_number-keys desc expected warned =
    warn_if (is_text expected) (concat "deprecated-atoi:" desc) warned

module _ (numerals : Numerals) (matcher_of : Value → Result String Matcher)
    (have_patterns : Value → Matcher) (type_name : String) (read : Read) (own_skip : Bool) where
  -- The warnings after a step that gave those of `ks`.
  abbrev Warns : Sheet → List String → Result String Sheet → Type 0
  Warns s ks (err problem) = Unit
  Warns s ks (ok s') = s'.warned ≡ warn_all ks s.warned

  if_warned :
      (b : Bool) (property : String) (expected : Value) (actual : Actual) (s : Sheet)
      → (if b
          then add numerals matcher_of have_patterns type_name read own_skip property expected
              actual s
          else s).warned
        ≡ s.warned
  unfolding add
  if_warned true property expected actual s = refl
  if_warned false property expected actual s = refl

  if_renamed :
      (b : Bool) (key property : String) (expected : Value) (actual : Actual) (s : Sheet)
      → (if b
          then add numerals matcher_of have_patterns type_name read own_skip property expected
              actual
              (record s { warned = warn_spec_once key s.warned })
          else s).warned
        ≡ warn_all (key_if b key) s.warned
  unfolding add warn_all
  if_renamed true key property expected actual s = refl
  if_renamed false key property expected actual s = refl

  if_promoted :
      (b : Bool) (s : Sheet) → (if b then record s { skip = true } else s).warned ≡ s.warned
  if_promoted true s = refl
  if_promoted false s = refl

  add_number-Warns :
      (desc property : String) (expected : Value) (actual : Actual) (s : Sheet)
      → Warns s (number_key desc expected) (
          add_number numerals matcher_of have_patterns type_name read own_skip desc property
            expected actual s)
  unfolding add_number add
  add_number-Warns desc property expected actual s = given (deprecate_atoi numerals expected)
    where
      given :
          (number : Result String Value)
          → Warns s (number_key desc expected) (
              number >>= λ v. ok (
                add numerals matcher_of have_patterns type_name read own_skip property v actual
                  (record s { warned = warn_number desc expected s.warned })))
      given (err problem) = tt
      given (ok v) = warn_number-keys desc expected s.warned

  if_number-Warns :
      (b : Bool) (s : Sheet) (ks : List String) (r : Result String Sheet)
      → Warns s ks r
      → Warns s (if b then ks else []) (if b then r else ok s)
  unfolding warn_all
  if_number-Warns true s ks r g = g
  if_number-Warns false s ks r g = refl

  perform-Warns :
      (st : Statement) (s : Sheet)
      → Warns s
          (keys_of own_skip st)
          (perform numerals matcher_of have_patterns type_name read own_skip st s)
  unfolding perform keys_of add warn_all
  perform-Warns (check property expected actual) s = refl
  perform-Warns promote s = if_promoted (should_skip s.results) s
  perform-Warns (if_set property expected actual) s =
      if_warned (is_set expected) property expected actual s
  perform-Warns (if_set_warn desc property expected actual) s =
      if_warned (is_set expected) property expected actual
        (record s { warned = warn_empty own_skip desc expected s.warned })
      ∙ warn_empty-keys own_skip desc expected s.warned
  perform-Warns (if_set_renamed desc key property expected actual) s =
      if_renamed (is_set expected) key property expected actual
        (record s { warned = warn_empty own_skip desc expected s.warned })
      ∙ ap (warn_all (key_if (is_set expected) key))
          (warn_empty-keys own_skip desc expected s.warned)
      ∙ sym (
          warn_all-append (empty_key own_skip desc expected) (key_if (is_set expected) key)
            s.warned)
  perform-Warns (check_number desc property expected actual) s =
      add_number-Warns desc property expected actual s
  perform-Warns (if_set_number desc property expected actual) s =
      if_number-Warns (is_set expected) s (number_key desc expected)
        (add_number numerals matcher_of have_patterns type_name read own_skip desc property expected
          actual s)
        (add_number-Warns desc property expected actual s)
  perform-Warns (warn_once key) s = refl

  perform_all-keys :
      (sts : List Statement) (s s' : Sheet)
      → perform_all numerals matcher_of have_patterns type_name read own_skip sts s ≡ ok s'
      → s'.warned ≡ warn_all (keys own_skip sts) s.warned
  unfolding perform_all keys warn_all
  perform_all-keys [] s s' h = ap (λ x. x.warned) (sym (ok_inj h))
  perform_all-keys (st ∷ sts) s s' h =
      let (s1, first, rest) =
        >>=-eq-ok (perform numerals matcher_of have_patterns type_name read own_skip st s) _ h in
      perform_all-keys sts s1 s' rest
      ∙ ap (warn_all (keys own_skip sts))
          (subst (Warns s (keys_of own_skip st)) first (perform-Warns st s))
      ∙ sym (warn_all-append (keys_of own_skip st) (keys own_skip sts) s.warned)

  -- No key is warned of twice: the warnings given stay without repetition, and the same method run
  -- again, on what the first run left, gives no warning.
  pub validate_warns_once :
      (sts : List Statement) (warned : List String) (s s2 : Sheet)
      → Distinct warned
      → validate numerals matcher_of have_patterns type_name read own_skip sts warned ≡ ok s
      → validate numerals matcher_of have_patterns type_name read own_skip sts s.warned ≡ ok s2
      → (Distinct s.warned) × (s2.warned ≡ s.warned)
  unfolding validate
  validate_warns_once sts warned s s2 d h h2 =
      let given = perform_all-keys sts _ s h in
      (
        subst Distinct (sym given) (warn_all-Distinct (keys own_skip sts) warned d),
        perform_all-keys sts _ s2 h2
            ∙ subst (λ w. warn_all (keys own_skip sts) w ≡ w) (sym given)
                (warn_all-again (keys own_skip sts) _ (warn_all-Warned (keys own_skip sts) warned)),
      )
