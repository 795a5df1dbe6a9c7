-- ===== src/Guard/Rows.antt =====
-- The rows of levenshtein hold the distances of the prefixes.
use syver.Prelude.{
  ℕ, suc, ◌≤◌, ◌≡◌, refl, List, [], ◌∷◌, ◌++◌, length, length-append, arith, subst, sym, ap, ◌∙◌,
  String,
}
use mathlib.Core.List.{append_assoc, append-nil}
use syver.Guard.{fill, next_row, rows, first_row, last_cell, distance, levenshtein, runes}
use syver.Guard.Edits.{
  Edits, dist, dist_nil, dist_row, dist-le, dist-Edits, back, back-back, back-Edits,
}

-- The distances from `p` to `q` and to each longer prefix; `p` and `q` are read from the back.
abbrev row_tail : List ℕ → List ℕ → List ℕ → List ℕ
row_tail p q [] = []
row_tail p q (y ∷ ys) = dist p (y ∷ q) ∷ row_tail p (y ∷ q) ys

abbrev row : List ℕ → List ℕ → List ℕ → List ℕ
row p q ys = dist p q ∷ row_tail p q ys

fill-row :
    (x : ℕ) (p q ys : List ℕ)
    → fill x ys (dist p q) (row_tail p q ys) (dist (x ∷ p) q) ≡ row_tail (x ∷ p) q ys
unfolding fill dist dist_row
fill-row x p q [] = refl
fill-row x p q (y ∷ ys) = ap (λ l. dist (x ∷ p) (y ∷ q) ∷ l) (fill-row x p (y ∷ q) ys)

first-row : (q ys : List ℕ) → first_row (length q) ys ≡ row [] q ys
unfolding first_row dist
first-row q [] = refl
first-row q (y ∷ ys) = ap (λ l. length q ∷ l) (first-row (y ∷ q) ys)

next-row :
    (x : ℕ) (p rb : List ℕ) → next_row (suc (length p)) x rb (row p [] rb) ≡ row (x ∷ p) [] rb
unfolding next_row
next-row x p rb =
    ap (λ i. i ∷ fill x rb (dist p []) (row_tail p [] rb) i) (sym (dist_nil (x ∷ p)))
    ∙ ap (λ l. dist (x ∷ p) [] ∷ l) (fill-row x p [] rb)

abbrev onto : List ℕ → List ℕ → List ℕ
onto [] p = p
onto (x ∷ ra) p = onto ra (x ∷ p)

rows-row : (p ra rb : List ℕ) → rows (suc (length p)) ra rb (row p [] rb) ≡ row (onto ra p) [] rb
unfolding rows
rows-row p [] rb = refl
rows-row p (x ∷ ra) rb =
    ap (λ prev. rows (suc (suc (length p))) ra rb prev) (next-row x p rb) ∙ rows-row (x ∷ p) ra rb

last-row : (p q ys : List ℕ) → last_cell (row p q ys) ≡ dist p (onto ys q)
unfolding last_cell
last-row p q [] = refl
last-row p q (y ∷ ys) = last-row p (y ∷ q) ys

onto-append : (ra p : List ℕ) → onto ra p ≡ back ra ++ p
onto-append [] p = refl
onto-append (x ∷ ra) p = onto-append ra (x ∷ p) ∙ sym (append_assoc (back ra) (x ∷ []) p)

onto-nil : (ra : List ℕ) → onto ra [] ≡ back ra
onto-nil ra = onto-append ra [] ∙ append-nil (back ra)

length-back : (a : List ℕ) → length (back a) ≡ length a
length-back [] = refl
length-back (x ∷ a) = omega (arith, length-append (back a) (x ∷ []), length-back a)

nil_side : (rb : List ℕ) → length rb ≡ dist [] (back rb)
unfolding dist
nil_side rb = sym (length-back rb)

distance-dist : (ra rb : List ℕ) → distance ra rb ≡ dist (back ra) (back rb)
unfolding distance
distance-dist [] rb = nil_side rb
distance-dist (x ∷ ra) [] = sym (length-back (x ∷ ra)) ∙ sym (dist_nil (back (x ∷ ra)))
distance-dist (x ∷ ra) (y ∷ rb) =
    ap (λ first. last_cell (rows 1 (x ∷ ra) (y ∷ rb) first)) (first-row [] (y ∷ rb))
    ∙ ap last_cell (rows-row [] (x ∷ ra) (y ∷ rb))
    ∙ last-row (onto (x ∷ ra) []) [] (y ∷ rb)
    ∙ ap (λ p. dist p (onto (y ∷ rb) [])) (onto-nil (x ∷ ra))
    ∙ ap (dist (back (x ∷ ra))) (onto-nil (y ∷ rb))

-- The number that levenshtein computes row by row is the edit distance: some edits turn the one
-- text into the other at that price, each insertion, deletion and replacement of a rune costing 1,
-- and no edits are cheaper.
pub levenshtein_lem :
    (a b : String)
    → Edits (runes a) (runes b) (levenshtein a b)
      × ((n : ℕ) → Edits (runes a) (runes b) n → levenshtein a b ≤ n)
unfolding levenshtein
levenshtein_lem a b =
    let same = distance-dist (runes a) (runes b) in
    let edits = back-Edits (dist-Edits (back (runes a)) (back (runes b))) in
    let forward : Edits (runes a) (runes b) (dist (back (runes a)) (back (runes b))) =
      subst (λ l. Edits l (runes b) (dist (back (runes a)) (back (runes b)))) (back-back (runes a))
        (subst (λ l. Edits (back (back (runes a))) l (dist (back (runes a)) (back (runes b))))
          (back-back (runes b)) edits) in
    (
      subst (λ n. Edits (runes a) (runes b) n) (sym same) forward,
      λ n e. omega (arith, same, dist-le (back-Edits e)),
    )
