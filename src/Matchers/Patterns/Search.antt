-- ===== src/Matchers/Patterns/Search.antt =====
-- matchers/have_patterns.go: the search of `HavePatternsMatcher.Match`.
use Prim.Native.Char.{code}
use syver.Prelude.{
  ℕ, ◌+◌, ◌*◌, String, concat, str_eq, Bool, true, false, ◌||◌, List, [], ◌∷◌, ◌++◌, map, any,
  length, Option, none, some, Result, ok, err, ◌>>=◌, if◌then◌else◌, ltb, ◌==◌,
}
use syver.Value.{Value, Values, none_left, item, nil, bool, int, float, str, strings, list, table}
use syver.Matchers.Patterns.Texts.{raw_lines}
use syver.Matchers.Transforms.{join_lines}
use syver.Matchers.Patterns.{
  Pattern, pattern, is_inverse, pattern_match, Stop, failed, slice_to_patterns,
}

abbrev pub max_scan_token_size : ℕ
max_scan_token_size = 1024 * 1024

-- The bytes of a text in UTF-8.
abbrev char_size : ℕ → ℕ
char_size c = if ltb c 0x80 then 1 else if ltb c 0x800 then 2 else if ltb c 0x10000 then 3 else 4

unfoldable pub byte_size : String → ℕ
byte_size String.[] = 0
byte_size (String.◌∷◌ c s) = char_size (code c) + byte_size s

-- The buffer of the scanner holds the line, with room for what ends it.
abbrev pub fits : String → Bool
fits line = ltb (byte_size line) max_scan_token_size

-- `scanner.Text()`: a line without its carriage return.
unfoldable pub drop_cr : String → String
drop_cr String.[] = ""
drop_cr (String.◌∷◌ c String.[]) = if code c == 13 then "" else String.◌∷◌ c ""
drop_cr (String.◌∷◌ c (String.◌∷◌ d s)) = String.◌∷◌ c (drop_cr (String.◌∷◌ d s))

-- The inner loop, over `notfound`: the patterns found on this line, and those still searched for.
abbrev pub sifted : Pattern → Bool → List Pattern × List Pattern → List Pattern × List Pattern
sifted pat true (found, notfound) = (if is_inverse pat then found else pat ∷ found, notfound)
sifted pat false (found, notfound) = (found, pat ∷ notfound)

unfoldable pub sift : String → List Pattern → List Pattern × List Pattern
unfolding pattern_match
sift line [] = ([], [])
sift line (pat ∷ pats) = sifted pat (pattern_match pat line) (sift line pats)

-- `found` and `notfound` behind the outer loop, and `scanner.Err()`.
pub record Scanned : Type 0 where
  pub found : List Pattern
  pub notfound : List Pattern
  pub problem : Option String

abbrev pub with_found : List Pattern → Scanned → Scanned
with_found found s = record s { found = found ++ s.found }

-- The outer loop ends early once nothing is searched for.
abbrev pub scan_on : List Pattern × List Pattern → (List Pattern → Scanned) → Scanned
scan_on (found, []) rest = record { found = found; notfound = []; problem = none }
scan_on (found, pat ∷ pats) rest = with_found found (rest (pat ∷ pats))

abbrev pub too_long : List Pattern → Scanned
too_long notfound = record {
  found = [];
  notfound = notfound;
  problem = some "bufio.Scanner: token too long";
}

unfoldable pub scan : List String → List Pattern → Scanned
unfolding byte_size drop_cr sift
scan [] notfound = record { found = []; notfound = notfound; problem = none }
scan (line ∷ lines) notfound =
    if fits line
    then scan_on (sift (drop_cr line) notfound) (λ left. scan lines left)
    else too_long notfound

-- A pattern that was not found, and was not to be, or that is empty.
abbrev pub counts_unfound : Pattern → Bool
counts_unfound pat = is_inverse pat || str_eq (pattern pat) ""

unfoldable pub select : (Pattern → Bool) → List Pattern → List Pattern
select p [] = []
select p (pat ∷ pats) = if p pat then pat ∷ select p pats else select p pats

-- `subtractSlice`
unfoldable pub subtract_slice : List String → List String → List String
subtract_slice [] y = []
subtract_slice (s ∷ x) y =
    if any (λ t. str_eq t s) y then subtract_slice x y else s ∷ subtract_slice x y

-- What `Match` returns, and the fields that it leaves for `FailureResult`.
pub record Outcome : Type 0 where
  pub success : Bool
  pub found_elements : List String
  pub missing_elements : List String

-- From the patterns and the text on.
abbrev pub judged : List String → List String → Outcome
judged elements found =
    if length elements == length found
    then record { success = true; found_elements = found; missing_elements = [] }
    else record {
      success = false;
      found_elements = found;
      missing_elements = subtract_slice elements found;
    }

abbrev pub concluded :
    List String → List Pattern → List Pattern → Option String → Result Stop Outcome
concluded elements found notfound (some e) = err (failed e)
concluded elements found notfound none =
    ok (judged elements (map pattern (found ++ select counts_unfound notfound)))

-- `%T`
abbrev type_of : Value → String
type_of nil = "<nil>"
type_of (bool b) = "bool"
type_of (int i) = "int"
type_of (float x) = "float64"
type_of (str s) = "string"
type_of (strings ss) = "[]string"
type_of (list vs) = "[]interface {}"
type_of (table es) = "map[string]interface {}"

-- A stream is read as the text that it holds.
unfoldable pub text_of : Value → Result Stop String
unfolding join_lines
text_of (str text) = ok text
text_of (strings lines) = ok (join_lines lines)
text_of v = err (failed (concat "incorrect type " (type_of v)))

unfoldable pub search_lines : List String → List Pattern → String → Result Stop Outcome
unfolding scan select subtract_slice raw_lines
search_lines elements pats text =
    let scanned = scan (raw_lines text) pats in
    concluded elements scanned.found scanned.notfound scanned.problem

unfoldable pub search : List String → List Pattern → Value → Result Stop Outcome
unfolding text_of search_lines
search elements [] actual =
    ok (record { success = true; found_elements = []; missing_elements = [] })
search elements (pat ∷ pats) actual = do
  text ← text_of actual
  search_lines elements (pat ∷ pats) text

module _ (compile : String → Result String (String → Bool)) (object : Value → String) where
  unfoldable pub elements_of : Values → Result Stop (List String)
  elements_of none_left = ok []
  elements_of (item (str s) vs) = do rest ← elements_of vs; ok (s ∷ rest)
  elements_of (item v vs) =
      err
        (failed (concat "HavePatterns matcher expects patterns to be a string. got: \n" (object v)))

  -- `HavePatternsMatcher.Match`
  unfoldable pub have_patterns_match : Value → Value → Result Stop Outcome
  unfolding elements_of slice_to_patterns search
  have_patterns_match (list vs) actual = do
    elements ← elements_of vs
    pats ← slice_to_patterns compile elements
    search elements pats actual
  have_patterns_match v actual =
      err (failed (concat "HavePatterns matcher expects an array of matchers.  Got:\n" (object v)))
