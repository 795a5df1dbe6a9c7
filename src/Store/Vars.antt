-- ===== src/Store/Vars.antt =====
-- store.go: the variables of the templates. What the files hold, the parsers and mergo.Merge are
-- parameters. A file that is no regular one, such as a pipe, may answer every read differently.
use syver.Prelude.{
  ℕ, ◌+◌, String, concat, str_eq, Bool, true, false, List, [], ◌∷◌, update, Option, none, some,
  Result, ok, err, ◌>>=◌, if◌then◌else◌,
}
use syver.Value.{Value}
use syver.Store.Formats.{StoreFormat, get_store_format_from_data}

-- `varsFileCache`, and how often each path was read.
pub record VarsFiles : Type 0 where
  pub cache : String → Option (Result String String)
  pub reads : String → ℕ

abbrev pub no_vars_files : VarsFiles
no_vars_files = record { cache = λ path. none; reads = λ path. 0 }

-- Stat fails, or finds a regular file; and what the n-th read of a path answers.
pub record Disk : Type 0 where
  pub plain : String → Bool
  pub read : ℕ → String → Result String String

module _ (disk : Disk) where
  abbrev counted : String → VarsFiles → VarsFiles
  counted path s = record s { reads = update s.reads path (s.reads path + 1) }

  abbrev kept : String → Result String String → VarsFiles → VarsFiles
  kept path r s = record s { cache = update s.cache path (some r) }

  abbrev pub read_fresh : Bool → String → VarsFiles → Result String String × VarsFiles
  read_fresh true path s = (disk.read (s.reads path) path, counted path s)
  read_fresh false path s =
      let r = disk.read (s.reads path) path in (r, kept path r (counted path s))

  abbrev pub from_cache :
      Option (Result String String) → String → VarsFiles → Result String String × VarsFiles
  from_cache (some r) path s = (r, s)
  from_cache none path s = read_fresh (disk.plain path) path s

  -- `readVarsFile`
  unfoldable pub read_vars_file : String → VarsFiles → Result String String × VarsFiles
  unfolding update
  read_vars_file path s = from_cache (s.cache path) path s

  -- Calls one after another, which the mutex makes them.
  unfoldable pub read_all :
      List String → VarsFiles → List (String × Result String String) × VarsFiles
  unfolding read_vars_file
  read_all [] s = ([], s)
  read_all (path ∷ paths) s =
      let (r, s') = read_vars_file path s in
      let (rs, last) = read_all paths s' in ((path, r) ∷ rs, last)

-- The variables, a map from their names.
abbrev pub Vars : Type 0
Vars = String → Option Value

pub record Parsing : Type 0 where
  pub is_json : String → Bool
  pub is_yaml : String → Bool
  pub unmarshal : StoreFormat → String → Result String Vars
  pub merge : Vars → Vars → Result String Vars

abbrev pub no_vars : Vars
no_vars name = none

-- `for k, v := range extra { merged[k] = v }`
abbrev over : Option Value → Option Value → Option Value
over (some v) old = some v
over none old = old

unfoldable pub assign_all : Vars → Vars → Vars
assign_all merged extra name = over (extra name) (merged name)

module _ (parsing : Parsing) where
  unfoldable pub vars_of_data : String → Result String Vars
  unfolding get_store_format_from_data
  vars_of_data text = do
    format ← get_store_format_from_data parsing.is_json parsing.is_yaml text
    parsing.unmarshal format text

  -- `varsFromString`
  unfoldable pub vars_from_string : String → Result String Vars
  unfolding vars_of_data
  vars_from_string vars_string =
      if str_eq vars_string "" then ok no_vars else vars_of_data vars_string

  abbrev during : {A : Type 0} → String → Result String A → Result String A
  during context (err e) = err (concat context e)
  during context (ok x) = ok x

  module _ (disk : Disk) where
    -- `varsFromFile`
    unfoldable pub vars_from_file : String → VarsFiles → Result String Vars × VarsFiles
    unfolding vars_of_data read_vars_file
    vars_from_file vars_file s =
        if str_eq vars_file ""
        then (ok no_vars, s)
        else (let (r, s') = read_vars_file disk vars_file s in (r >>= vars_of_data, s'))

    abbrev merged_with : String → Vars → Result String Vars → Result String Vars
    merged_with vars_file merged r =
        during (concat "loading vars file '" (concat vars_file "'\n")) r >>= λ vars.
        during (concat "merging vars file '" (concat vars_file "'\n")) (parsing.merge merged vars)

    -- The loop of `loadVars` over the files.
    unfoldable pub merge_files : List String → Vars → VarsFiles → Result String Vars × VarsFiles
    unfolding vars_from_file
    merge_files [] merged s = (ok merged, s)
    merge_files (vars_file ∷ vars_files) merged s =
        let (r, s') = vars_from_file vars_file s in
        elim (merged_with vars_file merged r) [
          | err e ↦ (err e, s')
          | ok merged' ↦ merge_files vars_files merged' s'
        ]

    -- `loadVars`
    unfoldable pub load_vars : List String → String → VarsFiles → Result String Vars × VarsFiles
    unfolding merge_files vars_from_string assign_all
    load_vars vars_files vars_inline s =
        let (r, s') = merge_files vars_files no_vars s in
        (
          r >>= λ merged. during "loading inline vars\n" (vars_from_string vars_inline) >>= λ extra.
              ok (assign_all merged extra),
          s',
        )
