-- ===== src/Matchers/Transforms/Laws.antt =====
-- matchers/type_conversion.go: the conversion of a text to its lines and back.
use Prim.Native.Char.{Char, char, code}
use text.Mathlib.TextEquality.{Char-path}
use syver.Prelude.{
  String, concat, ◌≡◌, ◌≢◌, refl, sym, ◌∙◌, ap, inl, inr, Bool, true, false, List, [], ◌∷◌,
  Bool-cases, ==_iff, if◌then◌else◌, ◌==◌,
}
use syver.Value.{str}
use syver.Matchers.Transforms.{Formats, join_lines, split_lines, split_char, to_text, array_of}

newline :
    (c : Char) (s : String) → (code c == 10) ≡ true → String.◌∷◌ (char 10 tt) s ≡ String.◌∷◌ c s
newline c s h = ap (λ d. String.◌∷◌ d s) (sym (Char-path c (char 10 tt) ((==_iff (code c) 10).0 h)))

join_lines-cons :
    (c : Char) (line : String) (lines : List String)
    → join_lines (String.◌∷◌ c line ∷ lines) ≡ String.◌∷◌ c (join_lines (line ∷ lines))
unfolding join_lines concat
join_lines-cons c line [] = refl
join_lines-cons c line (line' ∷ lines) = refl

join_lines-split_char :
    (c : Char) (lines : List String)
    → lines ≢ []
    → join_lines (split_char c lines) ≡ String.◌∷◌ c (join_lines lines)
unfolding join_lines concat
join_lines-split_char c [] h = absurd (h refl)
join_lines-split_char c (line ∷ lines) h = elim (Bool-cases (code c == 10)) [
  | inl new ↦ rw new (newline c (join_lines (line ∷ lines)) new)
  | inr other ↦ rw other (join_lines-cons c line lines)
]

if_nonempty :
    (b : Bool) (line line' : String) (lines lines' : List String)
    → (if b then line ∷ lines else line' ∷ lines') ≢ []
if_nonempty true line line' lines lines' h = cc
if_nonempty false line line' lines lines' h = cc

split_lines-nonempty : (s : String) → split_lines s ≢ []
unfolding split_lines
split_lines-nonempty String.[] h = cc
split_lines-nonempty (String.◌∷◌ c s) h = split_char-nonempty (split_lines s) h
  where
    split_char-nonempty : (lines : List String) → split_char c lines ≢ []
    split_char-nonempty [] e = cc
    split_char-nonempty (line ∷ lines) e = if_nonempty (code c == 10) _ _ _ _ e

join_lines-split_lines : (s : String) → join_lines (split_lines s) ≡ s
unfolding split_lines join_lines
join_lines-split_lines String.[] = refl
join_lines-split_lines (String.◌∷◌ c s) =
    join_lines-split_char c (split_lines s) (split_lines-nonempty s)
    ∙ ap (String.◌∷◌ c) (join_lines-split_lines s)

-- A text that is split into its lines, and these joined again, is the text it was.
pub to_text-array_of :
    (formats : Formats) (s : String) → to_text formats (array_of formats (str s)) ≡ s
unfolding to_text array_of
to_text-array_of formats s = join_lines-split_lines s
