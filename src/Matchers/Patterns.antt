-- ===== src/Matchers/Patterns.antt =====
-- matchers/have_patterns.go: the patterns of a list, and the search of a text for them, line by line.
-- A pattern between slashes is compiled by the regexp package, a parameter.
pub mod Texts
pub mod Search
pub mod Counting
pub mod Laws
pub mod Safe
use Prim.Native.Char.{Char, code}
use syver.Prelude.{
  ℕ, String, concat, str_eq, Bool, true, false, not, ◌&&◌, ◌||◌, List, [], ◌∷◌, Option, none, some,
  Result, ok, err, ◌>>=◌, if◌then◌else◌, ◌==◌,
}
use syver.Value.{Value, Values, none_left, item, str, list}
use syver.Matchers.Patterns.Texts.{starts_with, trim_prefix, last_slash, contains, all_chars}

-- `patternMatcher`: a `stringPattern` with its cleaned text, or a `regexPattern` with what its
-- expression accepts; both keep the text of the spec and whether it was inverted.
pub data Pattern : Type 0 where
  string_pattern : String → String → Bool → Pattern
  regex_pattern : String → (String → Bool) → Bool → Pattern

-- `Pattern`, `Inverse`, `Match`
abbrev pub pattern : Pattern → String
pattern (string_pattern p clean inverse) = p
pattern (regex_pattern p re inverse) = p

abbrev pub is_inverse : Pattern → Bool
is_inverse (string_pattern p clean inverse) = inverse
is_inverse (regex_pattern p re inverse) = inverse

unfoldable pub pattern_match : Pattern → String → Bool
unfolding contains
pattern_match (string_pattern p clean inverse) line = contains line clean
pattern_match (regex_pattern p re inverse) line = re line

-- What ends the matcher early: an error, or the panic of an index that is out of range.
pub data Stop : Type 0 where
  failed : String → Stop
  panic : Stop

unfoldable pub new_string_pattern : String → Pattern
unfolding trim_prefix starts_with
new_string_pattern s =
    string_pattern s (trim_prefix b'\\' (trim_prefix b'!' s)) (starts_with b'!' s)

abbrev is_flag : Char → Bool
is_flag c = code c == b'i' || code c == b'm' || code c == b's'

-- The text behind the closing slash is made of flags.
abbrev closed : Option (String × String) → Bool
closed none = false
closed (some (body, flags)) = all_chars is_flag flags

unfoldable pub is_regex_pattern : String → Bool
unfolding trim_prefix starts_with last_slash all_chars
is_regex_pattern s =
    let core = trim_prefix b'!' s in
    starts_with b'/' core && closed (last_slash (trim_prefix b'/' core))

-- The loop over `trimLeft`: `cleanStr[0]` of an empty text panics.
unfoldable pub trim_left : String → Result Stop String
trim_left String.[] = err panic
trim_left (String.◌∷◌ c s) = if code c == b'\\' || code c == b'/' then ok s else ok (String.◌∷◌ c s)

-- The flags behind the last slash go in front of what stands before it.
abbrev with_flags : String → String → String
with_flags flags body =
    if str_eq flags "" then body else concat "(?" (concat flags (concat ")" body))

abbrev unflagged : String → Option (String × String) → String
unflagged clean none = clean
unflagged clean (some (body, flags)) = with_flags flags body

module _ (compile : String → Result String (String → Bool)) where
  abbrev compiled : String → Bool → Result String (String → Bool) → Result Stop Pattern
  compiled s inverse (err e) = err (failed e)
  compiled s inverse (ok re) = ok (regex_pattern s re inverse)

  unfoldable pub new_regex_pattern : String → Result Stop Pattern
  unfolding trim_prefix starts_with trim_left last_slash
  new_regex_pattern s = do
    clean ← trim_left (trim_prefix b'!' s)
    compiled s (starts_with b'!' s) (compile (unflagged clean (last_slash clean)))

  unfoldable pub slice_to_patterns : List String → Result Stop (List Pattern)
  unfolding is_regex_pattern new_regex_pattern new_string_pattern
  slice_to_patterns [] = ok []
  slice_to_patterns (s ∷ rest) = do
    pat ← (if is_regex_pattern s then new_regex_pattern s else ok (new_string_pattern s))
    pats ← slice_to_patterns rest
    ok (pat ∷ pats)
