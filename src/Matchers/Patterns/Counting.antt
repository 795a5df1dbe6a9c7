-- ===== src/Matchers/Patterns/Counting.antt =====
-- matchers/have_patterns.go: how many patterns the search finds.
use syver.Prelude.{
  ℕ, suc, ◌+◌, String, str_eq, ◌≡◌, refl, sym, ◌∙◌, ap, inl, inr, Bool, true, false, not, ◌||◌,
  List, [], ◌∷◌, any, All, length, length-append, none, Bool-cases, if◌then◌else◌, arith,
}
use syver.Matchers.Patterns.{Pattern, pattern, is_inverse, pattern_match}
use syver.Matchers.Patterns.Search.{
  sift, sifted, scan, scan_on, Scanned, select, counts_unfound, fits, drop_cr,
}

-- Every line is short enough for the scanner.
abbrev pub Fitting : List String → Type 0
Fitting lines = All (λ line. fits line ≡ true) lines

-- A pattern holds of some lines: one that is inverted occurs on none of them, and any other occurs
-- on one of them, or is empty.
unfoldable pub holds : List String → Pattern → Bool
unfolding pattern_match drop_cr
holds lines pat =
    let occurs = any (λ line. pattern_match pat (drop_cr line)) lines in
    if is_inverse pat then not occurs else occurs || str_eq (pattern pat) ""

abbrev pub count : (Pattern → Bool) → List Pattern → ℕ
count p pats = length (select p pats)

holds-here :
    (line : String) (lines : List String) (pat : Pattern)
    → pattern_match pat (drop_cr line) ≡ true
    → holds (line ∷ lines) pat ≡ not (is_inverse pat)
unfolding holds
holds-here line lines pat h = elim (Bool-cases (is_inverse pat)) [
  | inl inverse ↦ rw (h, inverse) refl
  | inr plain ↦ rw (h, plain) refl
]

holds-later :
    (line : String) (lines : List String) (pat : Pattern)
    → pattern_match pat (drop_cr line) ≡ false
    → holds (line ∷ lines) pat ≡ holds lines pat
unfolding holds
holds-later line lines pat h = rw h refl

count-first :
    (p : Pattern → Bool) (pat : Pattern) (pats : List Pattern)
    → count p (pat ∷ pats) ≡ (if p pat then suc (count p pats) else count p pats)
unfolding select
count-first p pat pats = elim (Bool-cases (p pat)) [ inl on ↦ rw on refl | inr off ↦ rw off refl ]

suc_if :
    (b : Bool) (m n : ℕ) → (if b then m + suc n else m + n) ≡ (if b then suc (m + n) else m + n)
suc_if true m n = omega arith
suc_if false m n = refl

-- A pattern that a line settles is counted at once, the others against the lines that follow.
sifted-count :
    (line : String) (lines : List String) (pat : Pattern) (b : Bool)
    (split : List Pattern × List Pattern)
    → pattern_match pat (drop_cr line) ≡ b
    → length (sifted pat b split).0 + count (holds lines) (sifted pat b split).1 ≡ (
        if holds (line ∷ lines) pat
        then suc (length split.0 + count (holds lines) split.1)
        else length split.0 + count (holds lines) split.1)
sifted-count line lines pat true (found, left) h = elim (Bool-cases (is_inverse pat)) [
  | inl inverse ↦ rw (holds-here line lines pat h, inverse) refl
  | inr plain ↦ rw (holds-here line lines pat h, plain) (omega arith)
]
sifted-count line lines pat false (found, left) h = elim (Bool-cases (holds lines pat)) [
  | inl on ↦ rw (holds-later line lines pat h, count-first (holds lines) pat left, on) (omega arith)
  | inr off ↦ rw (holds-later line lines pat h, count-first (holds lines) pat left, off) refl
]

sift-count :
    (line : String) (lines : List String) (pats : List Pattern)
    → length (sift (drop_cr line) pats).0 + count (holds lines) (sift (drop_cr line) pats).1
      ≡ count (holds (line ∷ lines)) pats
unfolding sift select
sift-count line lines [] = refl
sift-count line lines (pat ∷ pats) =
    sifted-count line lines pat (pattern_match pat (drop_cr line)) (sift (drop_cr line) pats) refl
    ∙ ap (λ n. if holds (line ∷ lines) pat then suc n else n) (sift-count line lines pats)
    ∙ sym (count-first (holds (line ∷ lines)) pat pats)

-- With no line, what holds is what was not to be found, and what is empty.
if_or : (b c : Bool) → (if b then true else c) ≡ (b || c)
if_or true c = refl
if_or false c = refl

holds-none : (pats : List Pattern) → count counts_unfound pats ≡ count (holds []) pats
unfolding holds select
holds-none [] = refl
holds-none (pat ∷ pats) =
    count-first counts_unfound pat pats
    ∙ ap (λ n. if counts_unfound pat then suc n else n) (holds-none pats)
    ∙ ap (λ b. if b then suc (count (holds []) pats) else count (holds []) pats)
        (sym (if_or (is_inverse pat) (str_eq (pattern pat) "")))
    ∙ sym (count-first (holds []) pat pats)

-- The patterns found, and those counted as found at the end, are as many as hold of the lines.
abbrev Counts : List String → List Pattern → Scanned → Type 0
Counts lines pats s =
    (length s.found + count counts_unfound s.notfound ≡ count (holds lines) pats)
    × (s.problem ≡ none)

scan_on-Counts :
    (line : String) (lines : List String) (pats : List Pattern)
    (split : List Pattern × List Pattern)
    → length split.0 + count (holds lines) split.1 ≡ count (holds (line ∷ lines)) pats
    → ((left : List Pattern) → Counts lines left (scan lines left))
    → Counts (line ∷ lines) pats (scan_on split (λ left. scan lines left))
unfolding select
scan_on-Counts line lines pats (found, []) h k = (h, refl)
scan_on-Counts line lines pats (found, pat ∷ left) h k =
    let (counted, fine) = k (pat ∷ left) in
    (omega (arith, h, counted, length-append found (scan lines (pat ∷ left)).found), fine)

pub scan-Counts :
    (lines : List String) (pats : List Pattern)
    → Fitting lines
    → Counts lines pats (scan lines pats)
unfolding scan
scan-Counts [] pats h = (omega (arith, holds-none pats), refl)
scan-Counts (line ∷ lines) pats h = rw h.0 (
    scan_on-Counts line lines pats (sift (drop_cr line) pats) (sift-count line lines pats)
      λ left. scan-Counts lines left h.1)
