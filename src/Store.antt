-- ===== src/Store.antt =====
-- store.go: reading a spec and the specs that it includes. The parsers of JSON and YAML, the template
-- and the files are parameters.
pub mod Formats
pub mod Merge
pub mod Layers
pub mod Overlays
pub mod Loops
pub mod Vars
pub mod Loading
pub mod Once
mod Tests
use syver.Prelude.{
  ℕ, String, concat, str_eq, Bool, true, false, List, [], ◌∷◌, any, Option, none, some, Result, ok,
  err, ◌>>=◌, if◌then◌else◌,
}
use syver.Value.{Value}
use syver.Store.Formats.{StoreFormat, unset, json, yaml, get_store_format_from_data}

-- An entry of `gossfile:`: `GetSyverfile()` and `GetSkip()`.
pub record Include : Type 0 where
  pub key : String
  pub file : String
  pub skip : Bool

-- `SyverConfig`: the resources and the discoverable resources, by the key of their type and their own,
-- and the includes, of `Syverfiles` and of `SyverfileAlias`.
pub record SyverConfig : Type 0 where
  pub resources : String → String → Option Value
  pub discovery : String → String → Option Value
  pub syverfiles : List Include
  pub syverfile_alias : List Include

-- `NewSyverConfig`
abbrev pub new_syver_config : SyverConfig
new_syver_config = record {
  resources = λ type key. none;
  discovery = λ type key. none;
  syverfiles = [];
  syverfile_alias = [];
}

-- `for k, v := range src { dst[k] = v }`, for every type.
abbrev pub override : Option Value → Option Value → Option Value
override (some v) old = some v
override none old = old

unfoldable pub merge_maps :
    (String → String → Option Value)
    → (String → String → Option Value)
    → String
    → String
    → Option Value
merge_maps dst src type key = override (src type key) (dst type key)

-- `mergeSyver`
unfoldable pub merge_syver : SyverConfig → SyverConfig → SyverConfig
unfolding merge_maps
merge_syver g1 g2 = record g1 {
  resources = merge_maps g1.resources g2.resources;
  discovery = merge_maps g1.discovery g2.discovery;
  syverfiles = [];
}

abbrev pub has_include : String → List Include → Bool
has_include key includes = any (λ i. str_eq i.key key) includes

-- The loop over `SyverfileAlias`.
unfoldable pub fold_alias : List Include → List Include → List Include
fold_alias [] includes = includes
fold_alias (i ∷ alias) includes =
    if has_include i.key includes
    then fold_alias alias includes
    else fold_alias alias (i ∷ includes)

-- What the code calls to read a spec.
pub record Reading : Type 0 where
  pub read_file : String → Result String String
  pub filter : String → Result String String
  pub is_json : String → Bool
  pub is_yaml : String → Bool
  pub unmarshal : StoreFormat → String → Result String SyverConfig

module _ (reading : Reading) (out_store_format : StoreFormat) where
  abbrev folded : SyverConfig → SyverConfig
  folded c = record c {
    syverfiles = fold_alias c.syverfile_alias c.syverfiles;
    syverfile_alias = [];
  }

  abbrev chosen_format : Bool → String → Result String StoreFormat
  chosen_format true data_read =
      get_store_format_from_data reading.is_json reading.is_yaml data_read
  chosen_format false data_read = ok out_store_format

  -- `ReadJSONData`
  unfoldable pub read_json_data : String → Bool → Result String SyverConfig
  unfolding fold_alias get_store_format_from_data
  read_json_data data_read detect_format = do
    rendered ← reading.filter data_read
    format ← chosen_format detect_format rendered
    c ← reading.unmarshal format rendered
    ok (folded c)

  abbrev file_error : Result String String → Result String String
  file_error (err e) = err (concat "file error: " e)
  file_error (ok s) = ok s

  -- `ReadJSON`
  unfoldable pub read_json : String → Result String SyverConfig
  unfolding read_json_data
  read_json file_path = do
    file ← file_error (reading.read_file file_path)
    read_json_data file false
