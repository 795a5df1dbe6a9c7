-- ===== src/Guard/Edits.antt =====
-- The edits that turn one sequence of runes into another, and the recursive distance.
use syver.Prelude.{
  ℕ, suc, ◌+◌, ◌≤◌, ◌≡◌, refl, ◌⊎◌, inl, inr, List, [], ◌∷◌, ◌++◌, ltb, ◌==◌, ==_iff, Bool-cases,
  length, arith, subst, sym, ap, ◌∙◌,
}
use syver.Guard.{lower, cost_of, cell}

-- `n` is the price of a way to turn the first sequence into the second, reading both from the front.
pub data Edits : List ℕ → List ℕ → ℕ → Type 0 where
  nothing : Edits [] [] 0
  delete : {a b : List ℕ} {n : ℕ} (x : ℕ) → Edits a b n → Edits (x ∷ a) b (suc n)
  insert : {a b : List ℕ} {n : ℕ} (y : ℕ) → Edits a b n → Edits a (y ∷ b) (suc n)
  replace : {a b : List ℕ} {n : ℕ} (x y : ℕ) → Edits a b n → Edits (x ∷ a) (y ∷ b) (suc n)
  keep : {a b : List ℕ} {n : ℕ} (x : ℕ) → Edits a b n → Edits (x ∷ a) (x ∷ b) n

-- The distance by recursion on the two sequences.
unfoldable pub dist_row : ℕ → (List ℕ → ℕ) → List ℕ → ℕ
dist_row x below [] = suc (below [])
dist_row x below (y ∷ b) = cell (below (y ∷ b)) (dist_row x below b) (below b) (cost_of x y)

unfoldable pub dist : List ℕ → List ℕ → ℕ
unfolding dist_row
dist [] b = length b
dist (x ∷ a) b = dist_row x (dist a) b

lower-le : (m n : ℕ) → (lower m n ≤ m) × (lower m n ≤ n)
unfolding lower
lower-le m n = ground arith

lower-cases : (m n : ℕ) → (lower m n ≡ m) ⊎ (lower m n ≡ n)
unfolding lower
lower-cases m n = elim (Bool-cases (ltb n m)) [ inl h ↦ inr (rw h refl) | inr h ↦ inl (rw h refl) ]

cell-le :
    (up left across cost : ℕ)
    → (cell up left across cost ≤ up + 1)
      × (cell up left across cost ≤ left + 1)
      × (cell up left across cost ≤ across + cost)
unfolding cell
cell-le up left across cost =
    let (p, q) = lower-le (lower (up + 1) (left + 1)) (across + cost) in
    let (r, s) = lower-le (up + 1) (left + 1) in (omega (arith, p, r), omega (arith, p, s), q)

cell-cases :
    (up left across cost : ℕ)
    → (cell up left across cost ≡ up + 1)
      ⊎ ((cell up left across cost ≡ left + 1) ⊎ (cell up left across cost ≡ across + cost))
unfolding cell
cell-cases up left across cost = elim (lower-cases (lower (up + 1) (left + 1)) (across + cost)) [
  | inr e ↦ inr (inr e)
  | inl e ↦ elim (lower-cases (up + 1) (left + 1)) [
    | inl e' ↦ inl (e ∙ e')
    | inr e' ↦ inr (inl (e ∙ e'))
  ]
]

pub dist_nil : (a : List ℕ) → dist a [] ≡ length a
unfolding dist dist_row
dist_nil [] = refl
dist_nil (x ∷ a) = ap suc (dist_nil a)

-- No edits are cheaper.
dist_delete : (x : ℕ) (a b : List ℕ) → dist (x ∷ a) b ≤ suc (dist a b)
unfolding dist dist_row
dist_delete x a [] = omega arith
dist_delete x a (y ∷ b) =
    omega (arith, (cell-le (dist a (y ∷ b)) (dist_row x (dist a) b) (dist a b) (cost_of x y)).0)

dist_insert : (y : ℕ) (a b : List ℕ) → dist a (y ∷ b) ≤ suc (dist a b)
unfolding dist dist_row
dist_insert y [] b = omega arith
dist_insert y (x ∷ a) b =
    omega (arith, (cell-le (dist a (y ∷ b)) (dist_row x (dist a) b) (dist a b) (cost_of x y)).1)

dist_across : (x y : ℕ) (a b : List ℕ) → dist (x ∷ a) (y ∷ b) ≤ dist a b + cost_of x y
unfolding dist dist_row
dist_across x y a b = (cell-le (dist a (y ∷ b)) (dist_row x (dist a) b) (dist a b) (cost_of x y)).2

cost_of_le : (x y : ℕ) → cost_of x y ≤ 1
unfolding cost_of
cost_of_le x y = ground arith

cost_of_self : (x : ℕ) → cost_of x x ≡ 0
unfolding cost_of
cost_of_self x = ground arith

pub dist-le : {a b : List ℕ} {n : ℕ} → Edits a b n → dist a b ≤ n
unfolding dist
dist-le nothing = omega arith
dist-le (delete {a} {b} x e) = omega (arith, dist_delete x a b, dist-le e)
dist-le (insert {a} {b} y e) = omega (arith, dist_insert y a b, dist-le e)
dist-le (replace {a} {b} x y e) = omega (arith, dist_across x y a b, cost_of_le x y, dist-le e)
dist-le (keep {a} {b} x e) = omega (arith, dist_across x x a b, cost_of_self x, dist-le e)

-- Edits at that price exist.
priced : {a b : List ℕ} {n : ℕ} (m : ℕ) → m ≡ n → Edits a b n → Edits a b m
priced {a} {b} m e edits = subst (λ k. Edits a b k) (sym e) edits

across-Edits :
    (x y : ℕ) {a b : List ℕ} {n : ℕ} → Edits a b n → Edits (x ∷ a) (y ∷ b) (n + cost_of x y)
unfolding cost_of
across-Edits x y {a} {b} {n} e = elim (Bool-cases (x == y)) [
  | inl same ↦
      let edits : Edits (x ∷ a) (y ∷ b) n =
        subst (λ z. Edits (x ∷ a) (z ∷ b) n) ((==_iff x y).0 same) (keep x e) in
      rw same (priced (n + 0) (omega arith) edits)
  | inr other ↦ rw other (priced (n + 1) (omega arith) (replace x y e))
]

module _ (x : ℕ) (a : List ℕ) (below : (b : List ℕ) → Edits a b (dist a b)) where
  row-Edits : (b : List ℕ) → Edits (x ∷ a) b (dist_row x (dist a) b)
  unfolding dist_row
  row-Edits [] = delete x (below [])
  row-Edits (y ∷ b) =
      elim (cell-cases (dist a (y ∷ b)) (dist_row x (dist a) b) (dist a b) (cost_of x y)) [
        | inl e ↦ priced _ (omega (arith, e)) (delete x (below (y ∷ b)))
        | inr (inl e) ↦ priced _ (omega (arith, e)) (insert y (row-Edits b))
        | inr (inr e) ↦ priced _ e (across-Edits x y (below b))
      ]

nil-Edits : (b : List ℕ) → Edits [] b (length b)
nil-Edits [] = nothing
nil-Edits (y ∷ b) = insert y (nil-Edits b)

pub dist-Edits : (a b : List ℕ) → Edits a b (dist a b)
unfolding dist
dist-Edits [] b = nil-Edits b
dist-Edits (x ∷ a) b = row-Edits x a (dist-Edits a) b

-- The same edits, read from the back.
delete_last : {a b : List ℕ} {n : ℕ} (x : ℕ) → Edits a b n → Edits (a ++ x ∷ []) b (suc n)
delete_last x nothing = delete x nothing
delete_last x (delete z e) = delete z (delete_last x e)
delete_last x (insert z e) = insert z (delete_last x e)
delete_last x (replace z w e) = replace z w (delete_last x e)
delete_last x (keep z e) = keep z (delete_last x e)

insert_last : {a b : List ℕ} {n : ℕ} (y : ℕ) → Edits a b n → Edits a (b ++ y ∷ []) (suc n)
insert_last y nothing = insert y nothing
insert_last y (delete z e) = delete z (insert_last y e)
insert_last y (insert z e) = insert z (insert_last y e)
insert_last y (replace z w e) = replace z w (insert_last y e)
insert_last y (keep z e) = keep z (insert_last y e)

replace_last :
    {a b : List ℕ} {n : ℕ} (x y : ℕ) → Edits a b n → Edits (a ++ x ∷ []) (b ++ y ∷ []) (suc n)
replace_last x y nothing = replace x y nothing
replace_last x y (delete z e) = delete z (replace_last x y e)
replace_last x y (insert z e) = insert z (replace_last x y e)
replace_last x y (replace z w e) = replace z w (replace_last x y e)
replace_last x y (keep z e) = keep z (replace_last x y e)

keep_last : {a b : List ℕ} {n : ℕ} (x : ℕ) → Edits a b n → Edits (a ++ x ∷ []) (b ++ x ∷ []) n
keep_last x nothing = keep x nothing
keep_last x (delete z e) = delete z (keep_last x e)
keep_last x (insert z e) = insert z (keep_last x e)
keep_last x (replace z w e) = replace z w (keep_last x e)
keep_last x (keep z e) = keep z (keep_last x e)

abbrev pub back : List ℕ → List ℕ
back [] = []
back (x ∷ a) = back a ++ x ∷ []

back-append : (a : List ℕ) (x : ℕ) → back (a ++ x ∷ []) ≡ x ∷ back a
back-append [] x = refl
back-append (y ∷ a) x = ap (λ l. l ++ y ∷ []) (back-append a x)

pub back-back : (a : List ℕ) → back (back a) ≡ a
back-back [] = refl
back-back (x ∷ a) = back-append (back a) x ∙ ap (λ l. x ∷ l) (back-back a)

pub back-Edits : {a b : List ℕ} {n : ℕ} → Edits a b n → Edits (back a) (back b) n
back-Edits nothing = nothing
back-Edits (delete x e) = delete_last x (back-Edits e)
back-Edits (insert y e) = insert_last y (back-Edits e)
back-Edits (replace x y e) = replace_last x y (back-Edits e)
back-Edits (keep x e) = keep_last x (back-Edits e)
