-- ===== src/Matchers/Patterns/Laws.antt =====
-- matchers/have_patterns.go: what the search finds, against a description without the two lists.
use syver.Prelude.{
  suc, ◌≤◌, String, ◌≡◌, refl, sym, ◌∙◌, ap, ◌↔◌, inl, inr, Bool, true, List, [], ◌∷◌, ◌++◌, map,
  All, length, length-append, Result, ok, Bool-cases, if◌then◌else◌, ◌==◌, arith, ==_iff, ok_inj,
  >>=-eq-ok,
}
use syver.Value.{Value, Values, str, list}
use syver.Matchers.Patterns.Texts.{raw_lines}
use syver.Matchers.Patterns.{
  Pattern, pattern, Stop, is_regex_pattern, new_regex_pattern, new_string_pattern,
  slice_to_patterns,
}
use syver.Matchers.Patterns.Search.{
  scan, select, counts_unfound, search_lines, search, text_of, elements_of, have_patterns_match,
  concluded, Outcome, judged,
}
use syver.Matchers.Patterns.Counting.{Fitting, holds, count, scan-Counts}

count_le : (p : Pattern → Bool) (pats : List Pattern) → count p pats ≤ length pats
unfolding select
count_le p [] = omega arith
count_le p (pat ∷ pats) = elim (Bool-cases (p pat)) [
  | inl on ↦ rw on (omega (arith, count_le p pats))
  | inr off ↦ rw off (omega (arith, count_le p pats))
]

-- As many are counted as there are exactly when all are.
count_all :
    (p : Pattern → Bool) (pats : List Pattern)
    → (count p pats ≡ length pats) ↔ All (λ pat. p pat ≡ true) pats
unfolding select
count_all p [] = ((λ h. tt), λ h. refl)
count_all p (pat ∷ pats) = elim (Bool-cases (p pat)) [
  | inl on ↦ rw on (
    (λ h. (refl, (count_all p pats).0 (omega (arith, h)))),
    λ h. ap suc ((count_all p pats).1 h.1),
  )
  | inr off ↦ rw off ((λ h. absurd (omega (arith, h, count_le p pats))), λ h. cc (h.0))
]

length-map : {A B : Type 0} (f : A → B) (xs : List A) → length (map f xs) ≡ length xs
length-map f [] = refl
length-map f (x ∷ xs) = ap suc (length-map f xs)

judged-success :
    (elements found : List String)
    → ((judged elements found).success ≡ true) ↔ (length elements ≡ length found)
judged-success elements found = elim (Bool-cases (length elements == length found)) [
  | inl same ↦ rw same ((λ h. (==_iff (length elements) (length found)).0 same), λ h. refl)
  | inr other ↦ rw other ((λ h. cc), λ h. cc (other, (==_iff (length elements) (length found)).1 h))
]

-- The search of a text whose lines fit concludes, and succeeds exactly when every pattern holds.
abbrev Concludes : List String → List Pattern → Result Stop Outcome → Type 0
Concludes lines pats r =
    (o : Outcome) × (r ≡ ok o) × ((o.success ≡ true) ↔ All (λ pat. holds lines pat ≡ true) pats)

search_lines-Concludes :
    (elements : List String) (pats : List Pattern) (text : String)
    → Fitting (raw_lines text)
    → length elements ≡ length pats
    → Concludes (raw_lines text) pats (search_lines elements pats text)
unfolding search_lines
search_lines-Concludes elements pats text h same =
    let scanned = scan (raw_lines text) pats in
    let (counted, fine) = scan-Counts (raw_lines text) pats h in
    let all_found = scanned.found ++ select counts_unfound scanned.notfound in
    let (to, from) = judged-success elements (map pattern all_found) in
    let (every, counts) = count_all (holds (raw_lines text)) pats in
    let size =
      length-map pattern all_found
      ∙ length-append scanned.found (select counts_unfound scanned.notfound)
      ∙ counted in
    (
      judged elements (map pattern all_found),
      rw fine refl,
      (
        (λ won. every (sym size ∙ sym (to won) ∙ same)),
        λ held. from (same ∙ sym (counts held) ∙ sym size),
      ),
    )

slice_to_patterns-length :
    (compile : String → Result String (String → Bool)) (ss : List String) (pats : List Pattern)
    → slice_to_patterns compile ss ≡ ok pats
    → length ss ≡ length pats
unfolding slice_to_patterns
slice_to_patterns-length compile [] pats h = ap length (ok_inj h)
slice_to_patterns-length compile (s ∷ ss) pats h =
    let (pat, _, rest) =
      >>=-eq-ok
        (if is_regex_pattern s then new_regex_pattern compile s else ok (new_string_pattern s)) _
        h in
    let (others, sliced, whole) = >>=-eq-ok (slice_to_patterns compile ss) _ rest in
    ap suc (slice_to_patterns-length compile ss others sliced) ∙ ap length (ok_inj whole)

search-Concludes :
    (elements : List String) (pats : List Pattern) (text : String)
    → Fitting (raw_lines text)
    → length elements ≡ length pats
    → Concludes (raw_lines text) pats (search elements pats (str text))
unfolding search text_of
search-Concludes elements [] text h same = (_, refl, ((λ won. tt), λ held. refl))
search-Concludes elements (pat ∷ pats) text h same =
    search_lines-Concludes elements (pat ∷ pats) text h same

-- A list of texts that makes patterns, at a text whose lines all fit the scanner, gives an answer,
-- which is a success exactly when each pattern holds: one that is inverted occurs on no line, and
-- any other occurs on a line or is empty.
pub have_patterns_match_lem :
    (compile : String → Result String (String → Bool)) (object : Value → String) (vs : Values)
    (elements : List String) (pats : List Pattern) (text : String)
    → elements_of compile object vs ≡ ok elements
    → slice_to_patterns compile elements ≡ ok pats
    → Fitting (raw_lines text)
    → (o : Outcome) × (have_patterns_match compile object (list vs) (str text) ≡ ok o)
      × ((o.success ≡ true) ↔ All (λ pat. holds (raw_lines text) pat ≡ true) pats)
unfolding have_patterns_match
have_patterns_match_lem compile object vs elements pats text listed made fit =
    let (o, concluded, iff) =
      search-Concludes elements pats text fit
        (slice_to_patterns-length compile elements pats made) in
    (o, rw (listed, made) concluded, iff)
