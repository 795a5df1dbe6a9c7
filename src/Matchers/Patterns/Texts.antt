-- ===== src/Matchers/Patterns/Texts.antt =====
-- The functions of Go's strings and bufio packages that matchers/have_patterns.go calls.
use Prim.Native.Char.{Char, code}
use syver.Prelude.{
  ℕ, String, Bool, true, false, ◌&&◌, ◌||◌, List, [], ◌∷◌, Option, none, some, if◌then◌else◌, ◌==◌,
}

-- `strings.HasPrefix` and `strings.TrimPrefix` of one character.
unfoldable pub starts_with : ℕ → String → Bool
starts_with first String.[] = false
starts_with first (String.◌∷◌ c s) = code c == first

unfoldable pub trim_prefix : ℕ → String → String
trim_prefix first String.[] = ""
trim_prefix first (String.◌∷◌ c s) = if code c == first then s else String.◌∷◌ c s

-- `strings.LastIndex(s, "/")`: what stands before that slash and what behind it.
abbrev onto_body : Char → String → Option (String × String) → Option (String × String)
onto_body c s (some (body, rest)) = some (String.◌∷◌ c body, rest)
onto_body c s none = if code c == b'/' then some ("", s) else none

unfoldable pub last_slash : String → Option (String × String)
last_slash String.[] = none
last_slash (String.◌∷◌ c s) = onto_body c s (last_slash s)

unfoldable pub all_chars : (Char → Bool) → String → Bool
all_chars p String.[] = true
all_chars p (String.◌∷◌ c s) = p c && all_chars p s

-- `strings.HasPrefix` and `strings.Contains`
unfoldable pub has_prefix : String → String → Bool
has_prefix s String.[] = true
has_prefix String.[] (String.◌∷◌ c t) = false
has_prefix (String.◌∷◌ c s) (String.◌∷◌ d t) = code c == code d && has_prefix s t

unfoldable pub contains : String → String → Bool
unfolding has_prefix
contains String.[] t = has_prefix "" t
contains (String.◌∷◌ c s) t = has_prefix (String.◌∷◌ c s) t || contains s t

-- `bufio.ScanLines`: the lines of a text, without a last one that is empty.
abbrev onto_line : Char → List String → List String
onto_line c [] = if code c == 10 then "" ∷ [] else String.◌∷◌ c "" ∷ []
onto_line c (line ∷ lines) = if code c == 10 then "" ∷ line ∷ lines else String.◌∷◌ c line ∷ lines

unfoldable pub raw_lines : String → List String
raw_lines String.[] = []
raw_lines (String.◌∷◌ c s) = onto_line c (raw_lines s)
