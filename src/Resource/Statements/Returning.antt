-- ===== src/Resource/Statements/Returning.antt =====
-- resource/resource.go: when a Validate method returns. Its only panics are those of deprecateAtoI.
use syver.Prelude.{
  String, ◌≡◌, refl, ◌∙◌, ap, Bool, true, false, List, [], ◌∷◌, Result, ok, ◌>>=◌, All,
  if◌then◌else◌,
}
use syver.Value.{Value, ℤ, nil, bool, int, float, str, strings, list, table}
use syver.Resource.Numbers.Texts.{IntText, atoi-IntText}
use syver.Resource.{Read}
use syver.Resource.Validating.{Actual, Matcher}
use syver.Resource.Statements.{
  Statement, check, promote, if_set, if_set_warn, if_set_renamed, check_number, if_set_number,
  warn_once, Sheet, Numerals, is_set, warn_number, add, add_number, perform, perform_all, validate,
  deprecate_atoi,
}

-- No text, or the text of an int.
abbrev pub IsNumber : Value → Type 0
IsNumber (str s) = (i : ℤ) × IntText s i
IsNumber _ = Unit {0}

-- What the statement needs of the spec in order not to panic.
abbrev pub Fine : Statement → Type 0
Fine (check_number desc property expected actual) = IsNumber expected
Fine (if_set_number desc property expected actual) = is_set expected ≡ true → IsNumber expected
Fine _ = Unit {0}

module _ (numerals : Numerals) where
  Converted : Value → Type 0
  Converted v = (number : Value) × (deprecate_atoi numerals v ≡ ok number)

  IsNumber-Converted : (v : Value) → IsNumber v → Converted v
  unfolding Converted deprecate_atoi
  IsNumber-Converted nil h = (_, refl)
  IsNumber-Converted (bool b) h = (_, refl)
  IsNumber-Converted (int i) h = (_, refl)
  IsNumber-Converted (float x) h = (_, refl)
  IsNumber-Converted (str s) (i, text) =
      (numerals.to_float i, rw (atoi-IntText numerals.quote s i text) refl)
  IsNumber-Converted (strings ss) h = (_, refl)
  IsNumber-Converted (list vs) h = (_, refl)
  IsNumber-Converted (table es) h = (_, refl)

  module _ (matcher_of : Value → Result String Matcher) (have_patterns : Value → Matcher)
      (type_name : String) (read : Read) (own_skip : Bool) where
    abbrev Returns : Result String Sheet → Type 0
    Returns r = (s : Sheet) × (r ≡ ok s)

    add_number-Returns :
        (desc property : String) (expected : Value) (actual : Actual) (s : Sheet)
        → IsNumber expected
        → Returns (
            add_number numerals matcher_of have_patterns type_name read own_skip desc property
              expected actual s)
    unfolding add_number Converted
    add_number-Returns desc property expected actual s fine =
        let (number, e) = IsNumber-Converted expected fine in
        (
          add numerals matcher_of have_patterns type_name read own_skip property number actual
              (record s { warned = warn_number desc expected s.warned }),
          rw e refl,
        )

    if_number-Returns :
        (b : Bool) (r : Result String Sheet) (s : Sheet)
        → (b ≡ true → Returns r)
        → Returns (if b then r else ok s)
    if_number-Returns true r s h = h refl
    if_number-Returns false r s h = (s, refl)

    perform-Returns :
        (st : Statement) (s : Sheet)
        → Fine st
        → Returns (perform numerals matcher_of have_patterns type_name read own_skip st s)
    unfolding perform
    perform-Returns (check property expected actual) s fine = (_, refl)
    perform-Returns promote s fine = (_, refl)
    perform-Returns (if_set property expected actual) s fine = (_, refl)
    perform-Returns (if_set_warn desc property expected actual) s fine = (_, refl)
    perform-Returns (if_set_renamed desc key property expected actual) s fine = (_, refl)
    perform-Returns (check_number desc property expected actual) s fine =
        add_number-Returns desc property expected actual s fine
    perform-Returns (if_set_number desc property expected actual) s fine =
        if_number-Returns (is_set expected) _ s
          λ set. add_number-Returns desc property expected actual s (fine set)
    perform-Returns (warn_once key) s fine = (_, refl)

    perform_all-Returns :
        (sts : List Statement) (s : Sheet)
        → All Fine sts
        → Returns (perform_all numerals matcher_of have_patterns type_name read own_skip sts s)
    unfolding perform_all
    perform_all-Returns [] s fine = (s, refl)
    perform_all-Returns (st ∷ sts) s (fine, rest) =
        let (s1, first) = perform-Returns st s fine in
        let (s2, last) = perform_all-Returns sts s1 rest in
        (
          s2,
          ap (λ r. r >>= perform_all numerals matcher_of have_patterns type_name read own_skip sts)
                first
              ∙ last,
        )

    -- A Validate method returns, without a panic, when each attribute that its statements compare as
    -- a number is, where it is set or mandatory, no text or the text of an int.
    pub validate-Returns :
        (sts : List Statement) (warned : List String)
        → All Fine sts
        → Returns (validate numerals matcher_of have_patterns type_name read own_skip sts warned)
    unfolding validate
    validate-Returns sts warned fine = perform_all-Returns sts _ fine
