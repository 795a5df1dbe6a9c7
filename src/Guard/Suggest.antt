-- ===== src/Guard/Suggest.antt =====
-- Which key suggestKey picks.
use syver.Prelude.{
  ℕ, ◌≤◌, ◌<◌, ◌≡◌, refl, sym, subst, ◌⊎◌, inl, inr, ◌&&◌, ltb, leb, true, false, List, [], ◌∷◌,
  Memᴰ, String, arith, Bool-cases, All, All-mem, All-of_mem, Bool, ap,
}
use syver.Guard.{levenshtein, suggest_from, suggest_key}

-- A key that may be suggested.
abbrev pub Close : String → String → Type 0
Close key k = (1 ≤ levenshtein key k) × (levenshtein key k ≤ 2)

-- `k` is close, and none of `ks` is both close and nearer.
abbrev pub Nearest : String → List String → String → Type 0
Nearest key ks k =
    Close key k × All (λ k'. Close key k' → levenshtein key k ≤ levenshtein key k') ks

-- How the answer of the loop comes from its two variables.
abbrev Picked : String → List String → String → ℕ → String → Type 0
Picked key ks best best_dist s =
    ((s ≡ best) × All (λ k. Close key k → best_dist ≤ levenshtein key k) ks)
    ⊎ (Memᴰ s ks × Nearest key ks s × (levenshtein key s < best_dist))

module _ (key k : String) (ks : List String) (best : String) (best_dist : ℕ) (s : String) where
  Picked-better :
      Close key k
      → levenshtein key k < best_dist
      → Picked key ks k (levenshtein key k) s
      → Picked key (k ∷ ks) best best_dist s
  Picked-better close nearer (inl (same, all)) =
      let same_dist : levenshtein key s ≡ levenshtein key k = ap (levenshtein key) same in
      inr (
        Memᴰ.head same,
        (
          subst (Close key) (sym same) close,
          (
            (λ c. omega (arith, same_dist)),
            subst (λ n. All (λ k'. Close key k' → n ≤ levenshtein key k') ks) (sym same_dist) all,
          ),
        ),
        omega (arith, same_dist, nearer),
      )
  Picked-better close nearer (inr (m, near, lt)) =
      inr (Memᴰ.tail m, (near.0, ((λ c. omega (arith, lt)), near.1)), omega (arith, lt, nearer))

  Picked-other :
      (Close key k → best_dist ≤ levenshtein key k)
      → Picked key ks best best_dist s
      → Picked key (k ∷ ks) best best_dist s
  Picked-other far (inl (same, all)) = inl (same, (far, all))
  Picked-other far (inr (m, near, lt)) =
      inr (Memᴰ.tail m, (near.0, ((λ c. omega (arith, lt, far c)), near.1)), lt)

module _ (key k : String) (ks : List String) (best : String) (best_dist : ℕ) where
  abbrev better : Bool
  better =
      leb 1 (levenshtein key k) && leb (levenshtein key k) 2 && ltb (levenshtein key k) best_dist

  suggest_from-better :
      better ≡ true
      → suggest_from key (k ∷ ks) best best_dist ≡ suggest_from key ks k (levenshtein key k)
  unfolding suggest_from
  suggest_from-better h = rw h refl

  suggest_from_other :
      better ≡ false → suggest_from key (k ∷ ks) best best_dist ≡ suggest_from key ks best best_dist
  unfolding suggest_from
  suggest_from_other h = rw h refl

suggest_from-Picked :
    (key : String) (ks : List String) (best : String) (best_dist : ℕ)
    → Picked key ks best best_dist (suggest_from key ks best best_dist)
unfolding suggest_from
suggest_from-Picked key [] best best_dist = inl (refl, tt)
suggest_from-Picked key (k ∷ ks) best best_dist =
    elim (Bool-cases (better key k ks best best_dist)) [
      | inl h ↦
          subst (Picked key (k ∷ ks) best best_dist)
            (sym (suggest_from-better key k ks best best_dist h))
            (Picked-better key k ks best best_dist _ (ground (arith, h), ground (arith, h))
              (ground (arith, h)) (suggest_from-Picked key ks k (levenshtein key k)))
      | inr h ↦
          subst (Picked key (k ∷ ks) best best_dist)
            (sym (suggest_from_other key k ks best best_dist h))
            (Picked-other key k ks best best_dist _ (λ c. ground (arith, h, c))
              (suggest_from-Picked key ks best best_dist))
    ]

-- The suggestion for a key is either empty, and then no legal key is within one or two edits of it;
-- or it is a legal key within one or two edits, and no other legal key within two edits is nearer.
-- The order of the legal keys is that of the sort, of which it only matters that it keeps them.
pub suggest_key_lem :
    (sorted : List String → List String)
    (keeps : (ks : List String) (k : String) → Memᴰ k (sorted ks) → Memᴰ k ks)
    (all_kept : (ks : List String) (k : String) → Memᴰ k ks → Memᴰ k (sorted ks)) (key : String)
    (legal : List String)
    → ((suggest_key sorted key legal ≡ "") × All (λ k. ¬ Close key k) legal)
      ⊎ (Memᴰ (suggest_key sorted key legal) legal
          × Nearest key legal (suggest_key sorted key legal))
unfolding suggest_key
suggest_key_lem sorted keeps all_kept key legal =
    elim (suggest_from-Picked key (sorted legal) "" 3) [
      | inl (same, all) ↦ inl (
        same,
        All-of_mem (λ k. ¬ Close key k) legal
            λ k m c. omega (
              arith,
              c.1,
              All-mem (λ k'. Close key k' → 3 ≤ levenshtein key k') (all_kept legal k m) all c,
            ),
      )
      | inr (m, near, lt) ↦
          let s = suggest_from key (sorted legal) "" 3 in
          inr (
            keeps legal s m,
            (
              near.0,
              All-of_mem (λ k. Close key k → levenshtein key s ≤ levenshtein key k) legal
                  λ k m'.
                    All-mem (λ k'. Close key k' → levenshtein key s ≤ levenshtein key k')
                      (all_kept legal k m') near.1,
            ),
          )
    ]
