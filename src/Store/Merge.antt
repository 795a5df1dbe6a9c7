-- ===== src/Store/Merge.antt =====
-- store.go: mergeJSONData. The order of sort.Strings over the keys, filepath and filepath.Glob are
-- parameters, and so is what ReadJSON makes of a file. The levels that are left stand for `depth`: the
-- code stops at depth 50, which it would reach in the fiftieth level.
use syver.Prelude.{
  ℕ, zero, suc, String, concat, Bool, List, [], ◌∷◌, Result, ok, err, ◌>>=◌, if◌then◌else◌,
}
use syver.Store.{Include, SyverConfig, new_syver_config, merge_syver}

pub record Files : Type 0 where
  pub sorted : List Include → List Include
  pub is_rooted : String → Bool
  pub join : String → String → String
  pub dir : String → String
  pub glob : String → Result String (List String)
  pub quote : String → String
  pub read_json : String → Result String SyverConfig

abbrev pub max_levels : ℕ
max_levels = 49

abbrev pub err_max_depth : String
err_max_depth = "max depth of 50 reached, possibly due to dependency loop in goss file"

-- An error with what was done in front of it.
abbrev pub during : {A : Type 0} → String → Result String A → Result String A
during context (err e) = err (concat context e)
during context (ok x) = ok x

module _ (files : Files) where
  -- `fpath` of an include.
  unfoldable pub include_path : String → Include → String
  include_path path g = if files.is_rooted g.file then g.file else files.join path g.file

  abbrev none_found : String → Result String (List String) → Result String (List String)
  none_found fpath (err e) = err (concat "error in expanding glob pattern: " e)
  none_found fpath (ok []) = err (concat "no matched files were found: " (files.quote fpath))
  none_found fpath (ok (m ∷ ms)) = ok (m ∷ ms)

  unfoldable pub matches_of : String → Result String (List String)
  matches_of fpath = none_found fpath (files.glob fpath)

  -- The loops, over what the next level makes of a spec.
  module _ (next : SyverConfig → String → Result String SyverConfig) where
    unfoldable pub merge_match : String → Result String SyverConfig
    merge_match match = do
      j ← during (concat "could not read json data in " (concat match ": ")) (files.read_json match)
      during "could not write json data: " (next j (files.dir match))

    unfoldable pub merge_matches : List String → SyverConfig → Result String SyverConfig
    unfolding merge_match merge_syver
    merge_matches [] ret = ok ret
    merge_matches (match ∷ matches) ret = do
      j ← merge_match match
      merge_matches matches (merge_syver ret j)

    unfoldable pub merge_include : String → Include → SyverConfig → Result String SyverConfig
    unfolding include_path matches_of merge_matches
    merge_include path g ret =
        if g.skip
        then ok ret
        else (matches_of (include_path path g) >>= λ matches. merge_matches matches ret)

    unfoldable pub merge_includes : String → List Include → SyverConfig → Result String SyverConfig
    unfolding merge_include
    merge_includes path [] ret = ok ret
    merge_includes path (g ∷ gs) ret = do
      ret' ← merge_include path g ret
      merge_includes path gs ret'

  unfoldable pub merge_json_data : ℕ → SyverConfig → String → Result String SyverConfig
  unfolding merge_includes merge_syver
  merge_json_data zero syver_config path = err err_max_depth
  merge_json_data (suc levels) syver_config path =
      merge_includes (merge_json_data levels) path (files.sorted syver_config.syverfiles)
        (merge_syver new_syver_config syver_config)
