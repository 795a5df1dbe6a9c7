-- ===== src/Matchers/Compile.antt =====
-- resource/gomega.go: the matcher that a value of the spec stands for. The keys of a table are in the
-- order in which the code goes through the map, which Go leaves open.
pub mod Cases
pub mod Empty
pub mod Laws
use syver.Prelude.{
  ℕ, String, concat, str_eq, Bool, true, false, ◌||◌, List, [], ◌∷◌, Option, none, some, Result, ok,
  err, ◌>>=◌, if◌then◌else◌,
}
use syver.Value.{
  Value, Values, none_left, item, Entries, end, entry, nil, bool, int, float, str, strings, list,
  table, ℤ,
}
use syver.Matchers.Transforms.{Transformer, to_numeric, to_string, to_array, gjson}
use syver.Matchers.{
  SyverMatcher, SyverMatchers, no_matchers, matchers, equal, be_numerically, have_prefix,
  have_suffix, match_regexp, contain_substring, have_len, have_patterns, be_semver_constraint,
  have_key, contain_element, contain_elements, consist_of, negation, conjunction, disjunction,
  with_safe_transform,
}

-- `%T: %q` of a value, `%q` of the keys of a map, and the conversion of a float to an int.
pub record Prints : Type 0 where
  pub shown : Value → String
  pub keys_shown : Entries → String
  pub to_int : ℕ → ℤ

abbrev pub Compiled : Type 0
Compiled = Result String SyverMatcher

abbrev missing_required_attribute : String
missing_required_attribute = "syntax error: missing required attribute"

abbrev empty_matcher : String
empty_matcher =
    "syntax error: invalid matcher configuration. An empty map asserts nothing, exactly one matcher is required"

unfoldable pub empty_matcher_group_error : String → String
empty_matcher_group_error name =
    concat "syntax error: invalid '"
      (concat name "' argument. An empty value asserts nothing, at least one matcher is required")

module _ (prints : Prints) where
  unfoldable pub invalid_arg_syntax_error : String → String → Value → String
  invalid_arg_syntax_error name expected value = concat "syntax error: invalid '" (
      concat name (
        concat "' argument. Expected "
          (concat expected (concat " value, but received: " (prints.shown value)))))

  -- A matcher whose argument is a text.
  abbrev of_text : String → (String → SyverMatcher) → Value → Compiled
  of_text name make (str s) = ok (make s)
  of_text name make v = err (invalid_arg_syntax_error name "string" v)

  abbrev on_text : SyverMatcher → SyverMatcher
  on_text m = with_safe_transform to_string m

  abbrev len_of : Value → Compiled
  len_of (float x) = ok (have_len (prints.to_int x))
  len_of (int i) = ok (have_len i)
  len_of v = err (invalid_arg_syntax_error "have-len" "numeric" v)

  abbrev patterns_of : Value → Compiled
  patterns_of (list vs) = ok (on_text (have_patterns (list vs)))
  patterns_of v = err (invalid_arg_syntax_error "have-patterns" "array" v)

  -- The `switch` in front of `contain-element`.
  abbrev element_of : Value → Compiled → Compiled
  element_of (table es) sub = do m ← sub; ok (with_safe_transform to_array (contain_element m))
  element_of (str s) sub = do m ← sub; ok (with_safe_transform to_array (contain_element m))
  element_of (float x) sub = do m ← sub; ok (with_safe_transform to_array (contain_element m))
  element_of (int i) sub = do m ← sub; ok (with_safe_transform to_array (contain_element m))
  element_of v sub = err (invalid_arg_syntax_error "contain-element" "matcher, string or numeric" v)

  abbrev wrapped : (SyverMatcher → SyverMatcher) → Compiled → Compiled
  wrapped make sub = do m ← sub; ok (make m)

  abbrev grouped : (SyverMatchers → SyverMatcher) → Result String SyverMatchers → Compiled
  grouped make subs = do ms ← subs; ok (make ms)

  -- A group, which must not be empty.
  abbrev not_empty : String → (SyverMatchers → SyverMatcher) → SyverMatchers → Compiled
  not_empty name make no_matchers = err (empty_matcher_group_error name)
  not_empty name make (matchers m ms) = ok (make (matchers m ms))

  abbrev nonempty_group :
      String → (SyverMatchers → SyverMatcher) → Result String SyverMatchers → Compiled
  nonempty_group name make subs = do ms ← subs; not_empty name make ms

  -- The `switch` over the one key of a matcher, its value, and what the recursive calls give for it:
  -- the matcher of the value, those of its elements, and those at its paths.
  unfoldable pub matcher_named :
      String
      → Value
      → Compiled
      → (String → Result String SyverMatchers)
      → Result String SyverMatchers
      → Compiled
  unfolding invalid_arg_syntax_error empty_matcher_group_error
  matcher_named key value sub elements paths =
      if str_eq key "equal"
      then ok (equal value)
      else if str_eq key "have-prefix"
      then of_text key (λ s. on_text (have_prefix s)) value
      else if str_eq key "have-suffix"
      then of_text key (λ s. on_text (have_suffix s)) value
      else if str_eq key "match-regexp"
      then of_text key (λ s. on_text (match_regexp s)) value
      else if str_eq key "contain-substring"
      then of_text key (λ s. on_text (contain_substring s)) value
      else if str_eq key "have-len"
      then len_of value
      else if str_eq key "have-patterns"
      then patterns_of value
      else if str_eq key "have-key"
      then wrapped have_key sub
      else if str_eq key "contain-element"
      then element_of value sub
      else if str_eq key "contain-elements"
      then nonempty_group key (λ ms. with_safe_transform to_array (contain_elements ms))
          (elements "contains-elements")
      else if str_eq key "not"
      then wrapped negation sub
      else if str_eq key "consist-of"
      then grouped consist_of (elements key)
      else if str_eq key "and"
      then nonempty_group key conjunction (elements key)
      else if str_eq key "or"
      then nonempty_group key disjunction (elements key)
      else if str_eq key "gt" || str_eq key "ge" || str_eq key "lt" || str_eq key "le"
      then ok (with_safe_transform to_numeric (be_numerically key value))
      else if str_eq key "semver-constraint"
      then of_text key be_semver_constraint value
      else if str_eq key "gjson"
      then nonempty_group key conjunction paths
      else err (concat "syntax error: unknown matcher: " key)

  unfoldable mutual
    unfolding matcher_named invalid_arg_syntax_error

    -- `matcherToGomegaMatcher`
    pub matcher_to_gomega_matcher : Value → Compiled
    matcher_to_gomega_matcher (str s) = ok (with_safe_transform to_string (equal (str s)))
    matcher_to_gomega_matcher (float x) =
        ok (with_safe_transform to_numeric (be_numerically "eq" (float x)))
    matcher_to_gomega_matcher (int i) =
        ok (with_safe_transform to_numeric (be_numerically "eq" (int i)))
    matcher_to_gomega_matcher (bool b) = ok (equal (bool b))
    matcher_to_gomega_matcher (list vs) = grouped contain_elements (each_matcher vs)
    matcher_to_gomega_matcher nil = err missing_required_attribute
    matcher_to_gomega_matcher (strings ss) =
        err (invalid_arg_syntax_error "matcher" "map" (strings ss))
    matcher_to_gomega_matcher (table end) = err empty_matcher
    matcher_to_gomega_matcher (table (entry key value end)) =
        matcher_named key value (matcher_to_gomega_matcher value) (slice_to_gomega value)
          (path_matchers value)
    matcher_to_gomega_matcher (table (entry key value (entry key' value' es))) = err (
        concat
          "syntax error: invalid matcher configuration. At a given nesting level, only one matcher is allowed. Found multiple matchers: "
          (prints.keys_shown (entry key value (entry key' value' es))))

    -- `sliceToGomega`
    pub slice_to_gomega : Value → String → Result String SyverMatchers
    slice_to_gomega (list vs) name = each_matcher vs
    slice_to_gomega v name = err (invalid_arg_syntax_error name "array" v)

    pub each_matcher : Values → Result String SyverMatchers
    each_matcher none_left = ok no_matchers
    each_matcher (item v vs) = do
      m ← matcher_to_gomega_matcher v
      ms ← each_matcher vs
      ok (matchers m ms)

    -- The case of `gjson`.
    pub path_matchers : Value → Result String SyverMatchers
    path_matchers (table es) = each_path es
    path_matchers v = err (invalid_arg_syntax_error "gjson" "map" v)

    pub each_path : Entries → Result String SyverMatchers
    each_path end = ok no_matchers
    each_path (entry path v es) = do
      m ← matcher_to_gomega_matcher v
      ms ← each_path es
      ok (matchers (with_safe_transform (gjson path) m) ms)
