-- ===== src/Outputs/Meta.antt =====
-- outputs/meta.go: flattenMeta. The order of sort.Strings, `%v` and strconv.Itoa are parameters. The
-- levels that are left stand for `depth`, which begins at 1 and stops the descent at 10.
use syver.Prelude.{ℕ, zero, suc, ◌+◌, String, concat, ◌≢◌, refl, List, [], ◌∷◌, ◌++◌, map}
use syver.Value.{
  Value, Values, none_left, item, Entries, end, entry, nil, str, strings, list, table,
}

pub record MetaProperty : Type 0 where
  pub name : String
  pub value : String

abbrev pub Pairs : Type 0
Pairs = List (String × Value)

pub record MetaFormats : Type 0 where
  pub sorted : Pairs → Pairs
  pub print : Value → String
  pub itoa : ℕ → String

abbrev meta_max_levels : ℕ
meta_max_levels = 9

abbrev meta_truncated : String
meta_truncated = "[truncated: nested deeper than 10 levels]"

-- What is below a value, each with what its path is extended by; and a scalar has nothing below.
pub data Below : Type 0 where
  scalar : String → Below
  nothing_in : Below
  parts : String × Value → Pairs → Below

module _ (formats : MetaFormats) where
  unfoldable pub entry_pairs : Entries → Pairs
  entry_pairs end = []
  entry_pairs (entry k v es) = (k, v) ∷ entry_pairs es

  abbrev dotted : String × Value → String × Value
  dotted (k, v) = (concat "." k, v)

  abbrev bracketed : ℕ → String
  bracketed i = concat "[" (concat (formats.itoa i) "]")

  unfoldable pub indexed : ℕ → Values → Pairs
  indexed i none_left = []
  indexed i (item v vs) = (bracketed i, v) ∷ indexed (i + 1) vs

  unfoldable pub indexed_strings : ℕ → List String → Pairs
  indexed_strings i [] = []
  indexed_strings i (s ∷ ss) = (bracketed i, str s) ∷ indexed_strings (i + 1) ss

  abbrev parts_of : Pairs → Below
  parts_of [] = nothing_in
  parts_of (p ∷ ps) = parts p ps

  unfoldable pub below : Value → Below
  unfolding entry_pairs indexed indexed_strings
  below nil = nothing_in
  below (table es) = parts_of (map dotted (formats.sorted (entry_pairs es)))
  below (list vs) = parts_of (indexed 0 vs)
  below (strings ss) = parts_of (indexed_strings 0 ss)
  below v = scalar (formats.print v)

  module _ (flatten : String → Value → List MetaProperty) where
    unfoldable pub flatten_pairs : String → Pairs → List MetaProperty
    flatten_pairs path [] = []
    flatten_pairs path ((step, v) ∷ ps) = flatten (concat path step) v ++ flatten_pairs path ps

  abbrev flatten_below : (String → Pairs → List MetaProperty) → String → Below → List MetaProperty
  flatten_below deeper path (scalar s) = record { name = path; value = s } ∷ []
  flatten_below deeper path nothing_in = record { name = path; value = "" } ∷ []
  flatten_below deeper path (parts p ps) = deeper path (p ∷ ps)

  abbrev truncated : String → Pairs → List MetaProperty
  truncated path ps = record { name = path; value = meta_truncated } ∷ []

  -- `flattenMetaValue`
  unfoldable pub flatten_meta_value : ℕ → String → Value → List MetaProperty
  unfolding below flatten_pairs
  flatten_meta_value zero path v = flatten_below truncated path (below v)
  flatten_meta_value (suc levels) path v =
      flatten_below (flatten_pairs (flatten_meta_value levels)) path (below v)

  -- `flattenMeta`: the keys of the map itself are paths with no dot in front.
  unfoldable pub flatten_meta : Entries → List MetaProperty
  unfolding flatten_meta_value
  flatten_meta m =
      flatten_pairs (flatten_meta_value meta_max_levels) "" (formats.sorted (entry_pairs m))

  one-ne-nil :
      (path : String)
      → ◌≢◌ {A = List MetaProperty} (record { name = path; value = meta_truncated } ∷ []) []
  one-ne-nil path e = cc

  append-ne-nil : (xs ys : List MetaProperty) → xs ≢ [] → (xs ++ ys) ≢ []
  append-ne-nil [] ys h e = h refl
  append-ne-nil (x ∷ xs) ys h e = cc

  deeper-ne-nil :
      (deeper : String → Pairs → List MetaProperty) (path : String) (b : Below)
      → ((p : String × Value) (ps : Pairs) → deeper path (p ∷ ps) ≢ [])
      → flatten_below deeper path b ≢ []
  deeper-ne-nil deeper path (scalar s) h e = cc
  deeper-ne-nil deeper path nothing_in h e = cc
  deeper-ne-nil deeper path (parts p ps) h e = h p ps e

  -- No value is left out, however deep it is nested: each gives one property or more.
  pub flatten_meta_value-ne-nil :
      (levels : ℕ) (path : String) (v : Value) → flatten_meta_value levels path v ≢ []
  unfolding flatten_meta_value flatten_pairs
  flatten_meta_value-ne-nil zero path v =
      deeper-ne-nil truncated path (below v) λ p ps. one-ne-nil path
  flatten_meta_value-ne-nil (suc levels) path v =
      deeper-ne-nil (flatten_pairs (flatten_meta_value levels)) path (below v) λ p ps.
        append-ne-nil (flatten_meta_value levels (concat path p.0) p.1)
          (flatten_pairs (flatten_meta_value levels) path ps)
          (flatten_meta_value-ne-nil levels (concat path p.0) p.1)
