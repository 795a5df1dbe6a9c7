-- ===== src/Matchers/Tests.antt =====
-- Matchers of a spec, the values they are given, and the theorems at them.
use syver.Prelude.{
  String, ◌≡◌, ◌≢◌, refl, ◌↔◌, Bool, true, false, List, [], ◌∷◌, All, Option, none, some, Result,
  ok, err,
}
use mathlib.Core.List.Perm
use syver.Value.{Value, none_left, item, end, entry, bool, str, strings, list, table, pos}
use syver.Matchers.Transforms.{Formats, to_text, array_of, to_string}
use syver.Matchers.Transforms.Laws.{to_text-array_of}
use syver.Matchers.Patterns.{Pattern, new_string_pattern, regex_pattern, slice_to_patterns, panic}
use syver.Matchers.Patterns.Texts.{raw_lines, has_prefix}
use syver.Matchers.Patterns.Search.{Outcome, elements_of, have_patterns_match, byte_size}
use syver.Matchers.Patterns.Counting.{holds}
use syver.Matchers.Patterns.Laws.{have_patterns_match_lem}
use syver.Matchers.Patterns.Safe.{have_patterns_match_safe}
use syver.Matchers.Semver.{semver_match}
use syver.Matchers.Semver.Laws.{Satisfies, semver_match_iff}
use syver.Matchers.{
  Answer, SyverMatchers, no_matchers, matchers, equal, negation, conjunction, disjunction,
  have_prefix, with_safe_transform, Leaves, match,
}
use syver.Matchers.Groups.{negations, negation_groups, conjunction_order}
use syver.Matchers.Compile.Empty.{Vacuous}
use syver.Matchers.Compile.{Prints, matcher_to_gomega_matcher}
use syver.Matchers.Compile.Cases.{Asserts}
use syver.Matchers.Compile.Laws.{matcher_to_gomega_matcher-Asserts}

abbrev compile_any : String → Result String (String → Bool)
compile_any s = ok (λ line. true)

abbrev formats : Formats
formats = record {
  print = λ v. "1";
  compile = compile_any;
  parse_float = λ s. err "not a number";
  object = λ v. "value";
  valid_json = λ s. true;
  get_json = λ s path. none;
  wrap = λ t e. e;
}

abbrev answers : Bool → Answer
answers b = (b, none)

abbrev leaves : Leaves
leaves = record {
  equal_match = λ x v. answers true;
  numeric_match = λ comparator x v. answers true;
  prefix_match = λ s v. answers false;
  suffix_match = λ s v. answers true;
  regexp_match = λ s v. (false, some "bad expression");
  substring_match = λ s v. answers true;
  len_match = λ n v. answers true;
  key_match = λ m v. m v;
  element_match = λ m v. m v;
  elements_match = λ ms v. answers true;
  consist_match = λ ms v. answers true;
}

-- A version is its text, and a range the versions of one major number.
abbrev parse : String → Option String
parse s = some s

abbrev parse_range : String → Option (String → Bool)
parse_range s = some (λ v. has_prefix v s)

abbrev group : SyverMatchers
group = matchers (equal (bool true)) (matchers (have_prefix "/opt") no_matchers)

negation_groups_example :
    (match formats leaves String parse parse_range (negation (conjunction group)) (str "/bin")
      ≡ match formats leaves String parse parse_range (disjunction (negations group)) (str "/bin"))
    × (match formats leaves String parse parse_range (negation (disjunction group)) (str "/bin")
        ≡ match formats leaves String parse parse_range
            (conjunction (negations group))
            (str "/bin"))
negation_groups_example = negation_groups formats leaves String parse parse_range group (str "/bin")

abbrev turned : SyverMatchers
turned = matchers (have_prefix "/opt") (matchers (equal (bool true)) no_matchers)

conjunction_order_example :
    (match formats leaves String parse parse_range (conjunction group) (str "/bin")).0
    ≡ (match formats leaves String parse parse_range (conjunction turned) (str "/bin")).0
unfolding match
conjunction_order_example =
    conjunction_order formats leaves String parse parse_range group turned (str "/bin")
      (Perm.swap _ _ [])

abbrev prints : Prints
prints = record { shown = λ v. "value"; keys_shown = λ es. "keys"; to_int = λ x. pos x }

-- `not: {and: [{have-prefix: /opt}, true]}`
abbrev spec : Value
spec = table (
    entry "not"
      (table (
        entry "and"
          (list (item (table (entry "have-prefix" (str "/opt") end)) (item (bool true) none_left)))
          end))
      end)

matcher_to_gomega_matcher-Asserts_example :
    (¬ Vacuous spec)
    × Asserts (
        negation (
          conjunction (
            matchers
              (with_safe_transform to_string (have_prefix "/opt"))
              (matchers (equal (bool true)) no_matchers))))
unfolding matcher_to_gomega_matcher
matcher_to_gomega_matcher-Asserts_example = matcher_to_gomega_matcher-Asserts prints spec _ refl

to_text-array_of_example : to_text formats (array_of formats (str "a\nb\n")) ≡ "a\nb\n"
to_text-array_of_example = to_text-array_of formats "a\nb\n"

semver_match_iff_example :
    ((semver_match String parse parse_range formats.object "1." (strings ("1.2" ∷ []))).0 ≡ true)
    ↔ ((constraint : String → Bool) × (parse_range "1." ≡ some constraint)
        × Satisfies String parse parse_range formats.object constraint (strings ("1.2" ∷ [])))
semver_match_iff_example =
    semver_match_iff String parse parse_range formats.object "1." (strings ("1.2" ∷ []))

-- `have-patterns: [ok, "!error", "/^a/i"]`
abbrev elements : List String
elements = "ok" ∷ "!error" ∷ "/^a/i" ∷ []

abbrev patterns : List Pattern
patterns =
    new_string_pattern "ok"
    ∷ new_string_pattern "!error"
    ∷ regex_pattern "/^a/i" (λ line. true) false
    ∷ []

have_patterns_match_lem_example :
    (o : Outcome) × (have_patterns_match compile_any formats.object
        (list (item (str "ok") (item (str "!error") (item (str "/^a/i") none_left))))
        (str "all ok\r\nend")
      ≡ ok o)
    × ((o.success ≡ true) ↔ All (λ pat. holds (raw_lines "all ok\r\nend") pat ≡ true) patterns)
unfolding elements_of slice_to_patterns raw_lines byte_size
have_patterns_match_lem_example =
    have_patterns_match_lem compile_any formats.object
      (item (str "ok") (item (str "!error") (item (str "/^a/i") none_left))) elements patterns
      "all ok\r\nend" refl refl (refl, (refl, tt))

have_patterns_match_safe_example :
    have_patterns_match compile_any formats.object (list (item (str "!/") none_left)) (str "x")
    ≢ err panic
have_patterns_match_safe_example =
    have_patterns_match_safe compile_any formats.object (list (item (str "!/") none_left)) (str "x")

-- An empty path of a text is found, an inverted pattern that occurs is not forgiven.
forgiven :
    have_patterns_match compile_any formats.object
      (list (item (str "!ok") (item (str "") none_left)))
      (str "all ok")
    ≡ ok (record { success = false; found_elements = "" ∷ []; missing_elements = "!ok" ∷ [] })
unfolding have_patterns_match
forgiven = refl
