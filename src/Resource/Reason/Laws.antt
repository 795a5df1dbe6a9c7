-- ===== src/Resource/Reason/Laws.antt =====
-- A skip reason keeps to one line, and tidying it twice changes nothing.
use Prim.Native.Char.{Char, code}
use syver.Prelude.{
  String, concat, str_eq, ◌≡◌, refl, ◌≢◌, ◌⊎◌, inl, inr, true, false, List, [], ◌∷◌, All,
  Bool-cases, str_eq_of_ne, eq_iff, subst, sym, ap, ◌∙◌,
}
use syver.Resource.Reason.{is_space, flush, split_words, fields, join, one_line_skip_reason}

-- Every character of the text satisfies `P`.
abbrev pub EachChar : (Char → Type 0) → String → Type 0
EachChar P String.[] = Unit {0}
EachChar P (String.◌∷◌ c s) = P c × EachChar P s

-- A word: at least one character, and no space.
abbrev Word : String → Type 0
Word w = (w ≢ "") × EachChar (λ c. is_space (code c) ≡ false) w

flush-Word :
    (w : String) (ws : List String)
    → EachChar (λ c. is_space (code c) ≡ false) w
    → All Word ws
    → All Word (flush (w, ws))
flush-Word w ws h k = elim (Bool-cases (str_eq w "")) [
  | inl empty ↦ rw empty k
  | inr full ↦ rw full ((λ e. cc ((eq_iff w "").1 e), h), k)
]

split_words-Word :
    (s : String)
    → EachChar (λ c. is_space (code c) ≡ false) (split_words s).0 × All Word (split_words s).1
unfolding split_words
split_words-Word String.[] = (tt, tt)
split_words-Word (String.◌∷◌ c s) =
    let (word, words) = split_words-Word s in
    elim (Bool-cases (is_space (code c))) [
      | inl space ↦ rw space (tt, flush-Word _ _ word words)
      | inr other ↦ rw other ((other, word), words)
    ]

fields-Word : (s : String) → All Word (fields s)
unfolding fields
fields-Word s = let (word, words) = split_words-Word s in flush-Word _ _ word words

-- Characters that a skip reason may hold: a plain blank, and what is no space.
abbrev pub Printed : Char → Type 0
Printed c = (is_space (code c) ≡ false) ⊎ (code c ≡ 0x20)

concat-EachChar :
    (P : Char → Type 0) (s t : String) → EachChar P s → EachChar P t → EachChar P (concat s t)
unfolding concat
concat-EachChar P String.[] t h k = k
concat-EachChar P (String.◌∷◌ c s) t h k = (h.0, concat-EachChar P s t h.1 k)

word-Printed : (w : String) → EachChar (λ c. is_space (code c) ≡ false) w → EachChar Printed w
word-Printed String.[] h = tt
word-Printed (String.◌∷◌ c s) h = (inl h.0, word-Printed s h.1)

join-Printed : (ws : List String) → All Word ws → EachChar Printed (join ws)
unfolding join concat split_words
join-Printed [] h = tt
join-Printed (w ∷ []) h = word-Printed w h.0.1
join-Printed (w ∷ next ∷ ws) h =
    concat-EachChar Printed w _ (word-Printed w h.0.1) (inr refl, join-Printed (next ∷ ws) h.1)

-- The words of a text of words with one blank between each two are these words.
split_word :
    (w t : String)
    → EachChar (λ c. is_space (code c) ≡ false) w
    → split_words (concat w t) ≡ (concat w (split_words t).0, (split_words t).1)
unfolding split_words concat
split_word String.[] t h = refl
split_word (String.◌∷◌ c w) t h = rw (split_word w t h.1, h.0) refl

concat-nil : (s : String) → concat s "" ≡ s
unfolding concat
concat-nil String.[] = refl
concat-nil (String.◌∷◌ c s) = ap (String.◌∷◌ c) (concat-nil s)

flush_word : (w : String) (ws : List String) → w ≢ "" → flush (w, ws) ≡ w ∷ ws
flush_word w ws h = rw (str_eq_of_ne w "" h)

fields_first :
    (w t : String) → Word w → (split_words t).0 ≡ "" → fields (concat w t) ≡ w ∷ (split_words t).1
unfolding fields
fields_first w t h e = rw (split_word w t h.1, e, concat-nil w) (flush_word w (split_words t).1 h.0)

split_blank : (s : String) → split_words (String.◌∷◌ " " s) ≡ ("", fields s)
unfolding split_words fields
split_blank s = refl

split_nil : (split_words "").0 ≡ ""
unfolding split_words
split_nil = refl

fields_nil : fields "" ≡ []
unfolding fields
fields_nil = refl

fields-join : (ws : List String) → All Word ws → fields (join ws) ≡ ws
unfolding join concat split_words
fields-join [] h = fields_nil
fields-join (w ∷ []) h = rw (concat-nil w) at (fields_first w "" h.0 split_nil)
fields-join (w ∷ next ∷ ws) h =
    let rest = join (next ∷ ws) in
    fields_first w (String.◌∷◌ " " rest) h.0 (ap (λ x. x.0) (split_blank rest))
    ∙ ap (λ x. w ∷ x.1) (split_blank rest)
    ∙ ap (λ x. w ∷ x) (fields-join (next ∷ ws) h.1)

-- The text is at its end, or goes on with a space.
abbrev pub Ends : String → Type 0
Ends String.[] = Unit {0}
Ends (String.◌∷◌ c s) = is_space (code c) ≡ true

-- The words of a text, in order: what stands between its spaces.
pub data Words : String → List String → Type 0 where
  over : Words "" []
  blank :
      {c : Char} {s : String} {ws : List String}
      → is_space (code c) ≡ true
      → Words s ws
      → Words (String.◌∷◌ c s) ws
  word :
      {w s : String} {ws : List String} → Word w → Ends s → Words s ws → Words (concat w s) (w ∷ ws)

-- Words with one blank between each two, and nothing around them.
pub data Spaced : List String → String → Type 0 where
  no_word : Spaced [] ""
  one_word : {w : String} → Spaced (w ∷ []) w
  and_more :
      {w next s : String} {ws : List String}
      → Spaced (next ∷ ws) s
      → Spaced (w ∷ next ∷ ws) (concat w (concat " " s))

join-Spaced : (ws : List String) → Spaced ws (join ws)
unfolding join
join-Spaced [] = no_word
join-Spaced (w ∷ []) = one_word
join-Spaced (w ∷ next ∷ ws) = and_more (join-Spaced (next ∷ ws))

-- A text is the characters of its first word, of which there may be none, and a rest with the other
-- words.
Cut : String → String × List String → Type 0
Cut s (w, ws) = (t : String) × (s ≡ concat w t) × Ends t × Words t ws

flush-Words :
    (s w : String) (ws : List String)
    → EachChar (λ c. is_space (code c) ≡ false) w
    → Cut s (w, ws)
    → Words s (flush (w, ws))
unfolding Cut concat
flush-Words s w ws h (t, e, ends, words) = elim (Bool-cases (str_eq w "")) [
  | inl empty ↦
      rw empty
        (subst (λ x. Words x ws) (sym (e ∙ ap (λ x. concat x t) ((eq_iff w "").0 empty))) words)
  | inr full ↦ rw full (
      subst (λ x. Words x (w ∷ ws)) (sym e)
        (word ((λ z. cc ((eq_iff w "").1 z, full)), h) ends words))
]

split_words-Cut : (s : String) → Cut s (split_words s)
unfolding Cut split_words concat
split_words-Cut String.[] = ("", refl, tt, over)
split_words-Cut (String.◌∷◌ c s) =
    let (t, e, ends, words) = split_words-Cut s in
    elim (Bool-cases (is_space (code c))) [
      | inl space ↦ rw space (
        String.◌∷◌ c s,
        refl,
        space,
        blank space (flush-Words s _ _ (split_words-Word s).0 (t, e, ends, words)),
      )
      | inr other ↦ rw other (t, ap (String.◌∷◌ c) e, ends, words)
    ]

fields-Words : (s : String) → Words s (fields s)
unfolding fields
fields-Words s =
    flush-Words s (split_words s).0 (split_words s).1 (split_words-Word s).0 (split_words-Cut s)

-- The stored reason is the words of the skip reason, in order and with none left out, with one blank
-- between each two and nothing before or behind them. It holds no line break or other control space,
-- and tidying it once more gives the same text.
pub one_line_skip_reason_idem :
    (s : String)
    → ((ws : List String) × Words s ws × Spaced ws (one_line_skip_reason s))
      × EachChar Printed (one_line_skip_reason s)
      × (one_line_skip_reason (one_line_skip_reason s) ≡ one_line_skip_reason s)
unfolding one_line_skip_reason
one_line_skip_reason_idem s = (
  (fields s, fields-Words s, join-Spaced (fields s)),
  join-Printed (fields s) (fields-Word s),
  ap join (fields-join (fields s) (fields-Word s)),
)
