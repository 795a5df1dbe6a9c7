-- ===== src/Resource/Types/Tests.antt =====
-- A file, a user and a command of a spec: what their checks report, and the theorems at them.
use syver.Prelude.{
  arith, String, concat, ◌≡◌, refl, Bool, true, false, List, [], ◌∷◌, none, Result, ok, err, All,
}
use syver.Value.{Value, nil, bool, str, int, list, none_left, pos, negsuc}
use syver.Resource.{Read}
use syver.Resource.Results.{TestResult, no_matcher_result}
use syver.Resource.Skips.{should_skip}
use syver.Resource.Validating.{
  Actual, Matcher, value_method, validate_value, validate_gomega_value, judge, prepare, as_text,
  skip_result,
}
use syver.Resource.Numbers.Texts.{IntText, unsigned_text, minus_text}
use syver.Resource.Statements.{
  Statement, Sheet, Numerals, check, check_number, if_set_number, promote, if_set, if_set_warn,
  validate, perform_all, perform, add, is_set, warn_empty, warn_spec_once, warn_empty_once,
  is_empty_list,
}
use syver.Resource.Statements.Shape.{properties, asserted, asserted_by, validate-properties}
use syver.Resource.Statements.Warned.{Distinct}
use syver.Resource.Statements.Warnings.{validate_warns_once}
use syver.Resource.Statements.Skipping.{IsSkip, validate_skipped, validate_promoted}
use syver.Resource.Statements.Returning.{validate-Returns}
use syver.Resource.Types.{Common, Checks, validate_type, target, id_of}
use syver.Resource.Types.Hosts.{User, Command, user_validate, command_validate}
use syver.Resource.Types.Files.{File, file_validate, file_statements}
use syver.Resource.Types.Laws.{
  file_validate-properties, user_validate-Returned, command_validate-Returned,
}

abbrev numerals : Numerals
numerals = record { to_float = int; quote = λ s. concat "\"" (concat s "\"") }

abbrev accepts : Bool → Matcher
accepts b = record { match = λ v. (b, none); failure_result = λ v. no_matcher_result }

abbrev checks : Checks
checks = record {
  numerals = numerals;
  matcher_of = λ v. ok (accepts true);
  have_patterns = λ v. accepts true;
}

abbrev app : Common
app = record { id = "/bin/app"; name = ""; title = ""; skip = false }

abbrev answers : String → Actual
answers method = value_method (ok (bool true))

abbrev binary : File
binary = record {
  common = app;
  exists = bool true;
  mode = str "0755";
  owner = nil;
  uid = nil;
  group = nil;
  gid = nil;
  acl = list none_left;
  acl_sid = nil;
  linked_to = nil;
  filetype = nil;
  contains = nil;
  contents = nil;
  size = int (pos 7);
  md5 = nil;
  sha256 = nil;
  sha512 = nil;
}

abbrev blank : Sheet
blank = record { skip = false; results = []; warned = [] }

abbrev sheet_of : Result String Sheet → Sheet
sheet_of (ok s) = s
sheet_of (err e) = blank

abbrev binary_sheet : Sheet
binary_sheet = sheet_of (file_validate checks (λ path. answers) binary [])

file_validate-properties_example : properties binary_sheet.results ≡ "exists" ∷ "mode" ∷ "size" ∷ []
unfolding file_validate target id_of file_statements validate_type validate perform_all perform add
    warn_empty warn_spec_once warn_empty_once is_empty_list is_set validate_value
    validate_gomega_value judge prepare as_text concat should_skip
file_validate-properties_example =
    file_validate-properties checks (λ path. answers) binary [] binary_sheet refl

abbrev statements : List Statement
statements =
    check "exists" (bool true) (value_method (ok (bool false)))
    ∷ promote
    ∷ if_set_warn "/bin/app: file.acl" "acl" (list none_left) (value_method (ok nil))
    ∷ if_set "mode" (str "0755") (value_method (err "no such file"))
    ∷ []

abbrev read_app : Read
read_app = record { id = "/bin/app"; title = "" }

abbrev run : Bool → List String → Result String Sheet
run own_skip warned =
    validate numerals checks.matcher_of checks.have_patterns "File" read_app own_skip statements
      warned

validate-properties_example : properties (sheet_of (run false [])).results ≡ "exists" ∷ "mode" ∷ []
unfolding validate perform_all perform add warn_empty warn_spec_once warn_empty_once is_empty_list
    is_set validate_value validate_gomega_value judge prepare as_text concat should_skip asserted
    asserted_by
validate-properties_example =
    validate-properties numerals checks.matcher_of checks.have_patterns "File" read_app false
      statements [] (sheet_of (run false [])) refl

validate_skipped_example : All IsSkip (sheet_of (run true [])).results
unfolding validate perform_all perform add warn_empty warn_spec_once warn_empty_once is_empty_list
    is_set validate_value validate_gomega_value skip_result as_text concat should_skip
validate_skipped_example =
    validate_skipped numerals checks.matcher_of checks.have_patterns "File" read_app true statements
      [] (sheet_of (run true [])) refl refl

abbrev first_run : Sheet
first_run = sheet_of (run false [])

abbrev second_run : Sheet
second_run = sheet_of (run false first_run.warned)

validate_warns_once_example :
    (Distinct first_run.warned) × (second_run.warned ≡ "empty-list:/bin/app: file.acl" ∷ [])
unfolding validate perform_all perform add warn_empty warn_spec_once warn_empty_once is_empty_list
    is_set validate_value validate_gomega_value judge prepare as_text concat should_skip
validate_warns_once_example =
    validate_warns_once numerals checks.matcher_of checks.have_patterns "File" read_app false
      statements [] first_run second_run tt refl refl

-- A matcher that rejects: the file is missing, and its mode is not looked at.
abbrev rejects : Value → Result String Matcher
rejects v = ok (accepts false)

abbrev missing_run : Result String Sheet
missing_run = validate numerals rejects checks.have_patterns "File" read_app false statements []

abbrev first_result : TestResult
first_result =
    validate_value rejects checks.have_patterns "File" read_app "exists" (bool true)
      (value_method (ok (bool false))) false

validate_promoted_example :
    (rest : List TestResult) × ((sheet_of missing_run).results ≡ first_result ∷ rest)
    × (should_skip (first_result ∷ []) ≡ true → All IsSkip rest)
unfolding validate perform_all perform add warn_empty warn_spec_once warn_empty_once is_empty_list
    is_set validate_value validate_gomega_value judge skip_result prepare as_text concat should_skip
validate_promoted_example =
    validate_promoted numerals rejects checks.have_patterns "File" read_app false "exists"
      (bool true) (value_method (ok (bool false)))
      (if_set_warn "/bin/app: file.acl" "acl" (list none_left) (value_method (ok nil))
        ∷ if_set "mode" (str "0755") (value_method (err "no such file"))
        ∷ [])
      [] (sheet_of missing_run) refl

-- The texts of two ints.
thousand : IntText "1000" (pos 1000)
thousand =
    unsigned_text
      (
        (λ e. cc),
        (
          omega arith,
          omega arith,
          (omega arith, omega arith, (omega arith, omega arith, (omega arith, omega arith, refl))),
        ),
      )
      (omega arith)

minus_one : IntText "-1" (negsuc 0)
minus_one = minus_text ((λ e. cc), (omega arith, omega arith, refl)) (omega arith)

abbrev admin : User
admin = record {
  common = record { id = "admin"; name = ""; title = ""; skip = false };
  exists = bool true;
  uid = str "1000";
  gid = int (pos 100);
  home = nil;
  groups = nil;
  shell = nil;
}

admin_returns : (s : Sheet) × (user_validate checks (λ name. answers) admin [] ≡ ok s)
admin_returns =
    user_validate-Returned checks (λ name. answers) admin [] (λ set. (pos 1000, thousand))
      (λ set. tt)

abbrev probe : Command
probe = record {
  common = record { id = "probe"; name = ""; title = ""; skip = false };
  timeout = negsuc 4;
  exit_status = str "-1";
  stdout = nil;
  stderr = nil;
}

probe_returns : (s : Sheet) × (command_validate checks (λ name timeout. answers) probe [] ≡ ok s)
probe_returns =
    command_validate-Returned checks (λ name timeout. answers) probe [] (negsuc 0, minus_one)

-- A mandatory number, one that is set, and one that is not.
abbrev numbered : List Statement
numbered =
    check_number "probe: command.exit-status" "exit-status" (str "-1")
      (value_method (ok (int (negsuc 0))))
    ∷ if_set_number "admin: user.uid" "uid" (str "1000") (value_method (ok (int (pos 1000))))
    ∷ if_set_number "admin: user.gid" "gid" nil (value_method (ok nil))
    ∷ []

validate-Returns_example :
    (s : Sheet) × (validate numerals checks.matcher_of checks.have_patterns "User" read_app false
        numbered []
      ≡ ok s)
unfolding is_set
validate-Returns_example =
    validate-Returns numerals checks.matcher_of checks.have_patterns "User" read_app false numbered
      [] ((negsuc 0, minus_one), ((λ set. (pos 1000, thousand)), ((λ set. cc set), tt)))

-- Two users with no `username:` share a key: the second is not warned of.
abbrev guest : User
guest = record admin { common = record { id = "guest"; name = ""; title = ""; skip = false } }

abbrev after_admin : Sheet
after_admin = sheet_of (user_validate checks (λ name. answers) admin [])

second_unwarned :
    (sheet_of (user_validate checks (λ name. answers) guest after_admin.warned)).warned
    ≡ "deprecated-atoi:: user.uid" ∷ []
unfolding user_validate validate validate_value concat
second_unwarned = refl
