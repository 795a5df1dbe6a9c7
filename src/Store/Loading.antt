-- ===== src/Store/Loading.antt =====
-- validate.go (loadSyverConfig) and discovery_load.go: loading a spec, and the discovery in front of it.
-- What the templates make of a text and the run of a discovery are parameters.
use syver.Prelude.{
  String, concat, str_eq, ◌≡◌, ◌≢◌, refl, Bool, true, not, ◌&&◌, Option, none, some, Result, ok,
  err, ◌>>=◌, str_eq_of_ne, if◌then◌else◌,
}
use syver.Store.{SyverConfig, Reading, read_json_data, read_json}
use syver.Store.Formats.{StoreFormat, get_store_format_from_data, get_store_format_from_file_name}
use syver.Store.Merge.{Files, merge_json_data, max_levels}

-- What was discovered, by its registers.
abbrev pub Discovered : Type 0
Discovered = String → Option Bool

-- The two filters of the templates, with the variables of the command line; the other readers; and
-- whether a spec has no resource, and no discoverable one.
pub record Loading : Type 0 where
  pub new_template_filter : Option Discovered → Result String (String → Result String String)
  pub new_peek_template_filter : Result String (String → Result String String)
  pub read_stdin_once : Result String String
  pub reading : Reading
  pub files : Files
  pub has_no_resources : SyverConfig → Bool
  pub discovery_is_empty : SyverConfig → Bool
  pub run_discovery_phase : SyverConfig → Result String Discovered

module _ (loading : Loading) where
  abbrev filtered : (String → Result String String) → Reading
  filtered template = record loading.reading { filter = template }

  abbrev files_in : Reading → StoreFormat → Files
  files_in reading format = record loading.files { read_json = read_json reading format }

  -- The check behind the merge.
  abbrev some_tests : String → SyverConfig → Result String SyverConfig
  some_tests source c =
      if loading.has_no_resources c && loading.discovery_is_empty c
      then err (concat "found 0 tests, source: " source)
      else ok c

  -- `-` stands for the standard input.
  unfoldable pub load_stdin : Reading → Result String SyverConfig
  unfolding get_store_format_from_data read_json_data merge_json_data
  load_stdin reading = do
    text ← loading.read_stdin_once
    format ← get_store_format_from_data reading.is_json reading.is_yaml text
    c ← read_json_data reading format text true
    merged ← merge_json_data (files_in reading format) max_levels c ""
    some_tests "STDIN" merged

  unfoldable pub load_file : Reading → String → Result String SyverConfig
  unfolding get_store_format_from_file_name read_json merge_json_data
  load_file reading spec_file = do
    format ← get_store_format_from_file_name spec_file
    c ← read_json reading format spec_file
    merged ← merge_json_data (files_in reading format) max_levels c (loading.files.dir spec_file)
    some_tests spec_file merged

  -- `loadSyverConfig`
  unfoldable pub load_syver_config :
      String → Result String (String → Result String String) → Result String SyverConfig
  unfolding load_stdin load_file
  load_syver_config spec_file filter = do
    template ← filter
    (if str_eq spec_file "-"
        then load_stdin (filtered template)
        else load_file (filtered template) spec_file)

  unfoldable pub get_syver_config : String → Option Discovered → Result String SyverConfig
  unfolding load_syver_config
  get_syver_config spec_file discovered =
      load_syver_config spec_file (loading.new_template_filter discovered)

  unfoldable pub get_syver_config_peek : String → Result String SyverConfig
  unfolding load_syver_config
  get_syver_config_peek spec_file = load_syver_config spec_file loading.new_peek_template_filter

  abbrev phase_error : String → Result String Discovered → Result String Discovered
  phase_error context (err e) = err (concat context e)
  phase_error context (ok discovered) = ok discovered

  abbrev spec_error : Result String SyverConfig → Result String SyverConfig
  spec_error (err e) = err (concat "discover gossfile: " e)
  spec_error (ok c) = ok c

  -- The run of a discovery, and the load with what it found.
  unfoldable pub load_discovered : String → SyverConfig → Result String SyverConfig
  unfolding get_syver_config
  load_discovered spec cfg = do
    discovered ← phase_error "discover phase: " (loading.run_discovery_phase cfg)
    get_syver_config spec (some discovered)

  abbrev no_tests : String → String
  no_tests discover_spec =
      concat "discover gossfile "
        (concat (loading.files.quote discover_spec) " has no discovery: tests")

  -- With `--discover`.
  unfoldable pub load_with_spec : String → String → Result String SyverConfig
  unfolding get_syver_config load_discovered
  load_with_spec discover_spec spec = do
    discover_cfg ← spec_error (get_syver_config discover_spec none)
    (if loading.discovery_is_empty discover_cfg
        then err (no_tests discover_spec)
        else load_discovered spec discover_cfg)

  -- With the `discovery:` of the spec itself.
  unfoldable pub load_inline : String → Result String SyverConfig
  unfolding get_syver_config get_syver_config_peek load_discovered
  load_inline spec = do
    peek ← get_syver_config_peek spec
    (if loading.discovery_is_empty peek
        then get_syver_config spec none
        else load_discovered spec peek)

  -- `loadSyverConfigWithDiscover`
  unfoldable pub load_syver_config_with_discover :
      String → String → String → Result String SyverConfig
  unfolding load_with_spec load_inline
  load_syver_config_with_discover output_format discover_spec spec =
      if str_eq output_format "discovery"
      then get_syver_config spec none
      else if not (str_eq discover_spec "")
      then load_with_spec discover_spec spec
      else load_inline spec

-- With `--discover`, what the first look at a spec answers has no part in what
-- is loaded.
pub load_ignores_peek :
    (loading : Loading) (filter : Result String (String → Result String String))
    (output_format discover_spec spec : String)
    → discover_spec ≢ ""
    → load_syver_config_with_discover loading output_format discover_spec spec
      ≡ load_syver_config_with_discover
          (record loading { new_peek_template_filter = filter })
          output_format
          discover_spec
          spec
unfolding load_syver_config_with_discover load_syver_config load_stdin load_file
load_ignores_peek loading filter output_format discover_spec spec h =
    rw (str_eq_of_ne discover_spec "" h) refl
