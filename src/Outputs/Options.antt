-- ===== src/Outputs/Options.antt =====
-- outputs/outputs.go: the formats and their options. strings.EqualFold and sort.Strings are parameters.
pub mod Reports
use Prim.Native.Char.{Char, code}
use syver.Prelude.{
  ℕ, String, concat, str_eq, Bool, true, false, not, ◌&&◌, ◌||◌, List, [], ◌∷◌, ◌++◌, any, Option,
  none, some, Result, ok, err, if◌then◌else◌,
}
use syver.Resource.Reason.{is_space}

-- The names of `outputers`, and with them the one of discoveries.
abbrev pub outputers : List String
outputers =
    "documentation" ∷ "json" ∷ "junit" ∷ "nagios" ∷ "prometheus" ∷ "rspecish" ∷ "silent"
    ∷ "structured" ∷ "tap" ∷ []

abbrev pub listed : String → List String → Bool
listed name names = any (λ n. str_eq n name) names

-- `GetOutputer`: its name stands for the outputer.
unfoldable pub get_outputer : String → Result String String
get_outputer name =
    if listed name outputers then ok name else err (concat "bad output format: " name)

-- `IsValidFormat`
unfoldable pub is_valid_format : String → Bool
is_valid_format f = str_eq f "discovery" || listed f outputers

-- The `ValidOptions` of the formats.
unfoldable pub valid_options : String → List String
valid_options format =
    if str_eq format "json" || str_eq format "structured"
    then "pretty" ∷ "sort" ∷ []
    else if str_eq format "documentation" || str_eq format "junit" || str_eq format "rspecish"
    then "sort" ∷ []
    else if str_eq format "nagios"
    then "perfdata" ∷ "verbose" ∷ []
    else if str_eq format "prometheus"
    then "verbose" ∷ []
    else if str_eq format "discovery"
    then "pretty" ∷ []
    else []

abbrev exclude_raw_formats : List String
exclude_raw_formats =
    "documentation" ∷ "json" ∷ "junit" ∷ "nagios" ∷ "rspecish" ∷ "structured" ∷ "tap" ∷ []

-- `strings.TrimSpace`
unfoldable pub trim_start : String → String
trim_start String.[] = ""
trim_start (String.◌∷◌ c s) = if is_space (code c) then trim_start s else String.◌∷◌ c s

unfoldable pub trim_end : String → String
trim_end String.[] = ""
trim_end (String.◌∷◌ c s) =
    let rest = trim_end s in if str_eq rest "" && is_space (code c) then "" else String.◌∷◌ c rest

unfoldable pub normalize_format_options : List String → List String
unfolding trim_start trim_end
normalize_format_options [] = []
normalize_format_options (opt ∷ opts) =
    let trimmed = trim_end (trim_start opt) in
    if str_eq trimmed ""
    then normalize_format_options opts
    else trimmed ∷ normalize_format_options opts

-- The variables of the loop of `CheckFormatOptions`.
pub record Checked : Type 0 where
  pub seen : List String
  pub unknown : List String
  pub ignored : List String

module _ (sorted : List String → List String) where
  -- `ValidOptionsFor`: `none` for a name of no format.
  unfoldable pub valid_options_for : String → Option (List String)
  unfolding valid_options is_valid_format
  valid_options_for format =
      if is_valid_format format
      then some (
          sorted (
            valid_options format
            ++ (if listed format exclude_raw_formats then "exclude_raw" ∷ [] else [])))
      else none

  abbrev known_options : Option (List String) → List String
  known_options none = []
  known_options (some names) = names

  -- The keys of `found`.
  unfoldable pub add_names : List String → List String → List String
  add_names [] found = found
  add_names (name ∷ names) found =
      add_names names (if listed name found then found else name ∷ found)

  unfoldable pub options_of : List String → List String → List String
  unfolding valid_options_for add_names
  options_of [] found = found
  options_of (format ∷ formats) found =
      options_of formats (add_names (known_options (valid_options_for format)) found)

  -- `FormatOptions`, over `Outputers`.
  unfoldable pub format_options : List String
  unfolding options_of
  format_options = sorted (options_of (sorted (outputers ++ "discovery" ∷ [])) [])

  module _ (equal_fold : String → String → Bool) where
    -- `util.IsValueInList`
    unfoldable pub is_value_in_list : String → List String → Bool
    is_value_in_list value [] = false
    is_value_in_list value (v ∷ list) = equal_fold v value || is_value_in_list value list

    -- Known to a format, but not to this one; nothing is, where there is no such format.
    unfoldable pub is_ignored : List String → Option (List String) → String → Bool
    unfolding is_value_in_list
    is_ignored all none opt = false
    is_ignored all (some own) opt = is_value_in_list opt all && not (is_value_in_list opt own)

    abbrev classified : List String → Option (List String) → String → Checked → Checked
    classified all own opt c =
        if not (is_value_in_list opt all)
        then record c { unknown = c.unknown ++ opt ∷ [] }
        else if is_ignored all own opt
        then record c { ignored = c.ignored ++ opt ∷ [] }
        else c

    unfoldable pub check_options :
        List String → Option (List String) → List String → Checked → Checked
    unfolding is_ignored
    check_options all own [] c = c
    check_options all own (opt ∷ opts) c = check_options all own opts (
        if is_value_in_list opt c.seen
        then c
        else classified all own opt (record c { seen = c.seen ++ opt ∷ [] }))

    unfoldable pub check_format_options : String → List String → List String × List String
    unfolding format_options normalize_format_options check_options
    check_format_options format opts =
        let c =
          check_options format_options (valid_options_for format) (normalize_format_options opts)
            (record { seen = []; unknown = []; ignored = [] }) in
        (c.unknown, c.ignored)
