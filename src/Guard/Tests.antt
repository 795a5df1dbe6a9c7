-- ===== src/Guard/Tests.antt =====
-- Distances and suggestions of small keys, and the theorems at them.
use syver.Prelude.{ℕ, ◌↔◌, some, map, ◌≤◌, ◌≡◌, refl, ◌⊎◌, List, [], ◌∷◌, Memᴰ, String, All}
use syver.Guard.{
  runes, levenshtein, distance, rows, next_row, fill, cell, lower, cost_of, first_row, last_cell,
  suggest_from, suggest_key, Node, Document, Warning, scalar, mapping, warns, warning_for,
  check_pairs, check_top_level_keys, value_has_anchor, is_extension, legal_top_level_keys,
}
use syver.Guard.Edits.{Edits}
use syver.Guard.Rows.{levenshtein_lem}
use syver.Guard.Warnings.{WarnedOf, check_top_level_keys_lem}
use syver.Guard.Suggest.{Close, Nearest, suggest_key_lem}

guard : Unit {0}
unfolding runes levenshtein distance rows next_row fill cell lower cost_of first_row last_cell
    suggest_from suggest_key
guard = tt

swapped : levenshtein "flie" "file" ≡ 2
unfolding guard
swapped = refl

abbrev legal : List String
legal = "command" ∷ "file" ∷ "user" ∷ []

suggested : suggest_key (λ ks. ks) "flie" legal ≡ "file"
unfolding guard
suggested = refl

unlike : suggest_key (λ ks. ks) "matchers" legal ≡ ""
unfolding guard
unlike = refl

levenshtein_lem_example :
    Edits (runes "flie") (runes "file") (levenshtein "flie" "file")
    × ((n : ℕ) → Edits (runes "flie") (runes "file") n → levenshtein "flie" "file" ≤ n)
levenshtein_lem_example = levenshtein_lem "flie" "file"

suggest_key_lem_example :
    ((suggest_key (λ ks. ks) "flie" legal ≡ "") × All (λ k. ¬ Close "flie" k) legal)
    ⊎ (Memᴰ (suggest_key (λ ks. ks) "flie" legal) legal
        × Nearest "flie" legal (suggest_key (λ ks. ks) "flie" legal))
suggest_key_lem_example = suggest_key_lem (λ ks. ks) (λ ks k m. m) (λ ks k m. m) "flie" legal

abbrev node : String → String → ℕ → Node
node value anchor line = record { kind = scalar; value = value; anchor = anchor; line = line }

-- A misspelt key, an extension, an anchor and a legal key.
abbrev spec : Document
spec = record {
  kind = mapping;
  content =
      node "flie" "" 1
      ∷ node "" "" 1
      ∷ node "x-note" "" 3
      ∷ node "" "" 3
      ∷ node "common" "" 5
      ∷ node "" "common" 5
      ∷ node "file" "" 7
      ∷ node "" "" 7
      ∷ [];
}

one_warning :
    map
      (λ (w : Warning). w.suggestion)
      (check_top_level_keys (λ ks. ks) (legal_top_level_keys legal) "spec.yaml" (some (spec ∷ [])))
    ≡ "file" ∷ []
unfolding guard check_top_level_keys check_pairs warns warning_for value_has_anchor is_extension
    legal_top_level_keys
one_warning = refl

abbrev misspelt : Warning
misspelt = record { path = "spec.yaml"; line = 1; key = "flie"; suggestion = "file" }

check_top_level_keys_lem_example :
    Memᴰ misspelt (check_top_level_keys (λ ks. ks) legal "spec.yaml" (some (spec ∷ [])))
    ↔ WarnedOf (λ ks. ks) legal "spec.yaml" spec.content misspelt
check_top_level_keys_lem_example =
    check_top_level_keys_lem (λ ks. ks) legal "spec.yaml" spec [] misspelt refl
