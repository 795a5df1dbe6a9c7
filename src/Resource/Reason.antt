-- ===== src/Resource/Reason.antt =====
-- resource/skip.go: oneLineSkipReason.
pub mod Laws
use Prim.Native.Char.{Char, code}
use syver.Prelude.{
  ℕ, String, concat, str_eq, Bool, false, ◌&&◌, ◌||◌, List, [], ◌∷◌, if◌then◌else◌, ◌==◌, leb,
}

-- `unicode.IsSpace`
abbrev pub is_space : ℕ → Bool
is_space c =
    (leb 9 c && leb c 13)
    || c == 0x20
    || c == 0x85
    || c == 0xa0
    || c == 0x1680
    || (leb 0x2000 c && leb c 0x200a)
    || c == 0x2028
    || c == 0x2029
    || c == 0x202f
    || c == 0x205f
    || c == 0x3000

abbrev pub flush : String × List String → List String
flush (word, words) = if str_eq word "" then words else word ∷ words

abbrev add_char : Char → String × List String → String × List String
add_char c (word, words) =
    if is_space (code c) then ("", flush (word, words)) else (String.◌∷◌ c word, words)

-- The word that the text begins with, and the words behind it.
unfoldable pub split_words : String → String × List String
split_words String.[] = ("", [])
split_words (String.◌∷◌ c s) = add_char c (split_words s)

-- `strings.Fields`
unfoldable pub fields : String → List String
unfolding split_words
fields s = flush (split_words s)

-- `strings.Join(words, " ")`
unfoldable pub join : List String → String
join [] = ""
join (word ∷ []) = word
join (word ∷ next ∷ words) = concat word (concat " " (join (next ∷ words)))

unfoldable pub one_line_skip_reason : String → String
unfolding fields join
one_line_skip_reason reason = join (fields reason)
