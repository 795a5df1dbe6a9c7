-- ===== src/Store/Tests.antt =====
-- Specs that include others, and the theorems at them.
use syver.Prelude.{
  zero, suc, ◌≤◌, String, str_eq, ◌≡◌, refl, true, false, [], ◌∷◌, All, Memᴰ, none, some, ok,
  if◌then◌else◌, inr,
}
use syver.Value.{str}
use syver.Store.{SyverConfig, fold_alias}
use syver.Store.Formats.{yaml, get_store_format_from_file_name}
use syver.Store.Merge.{Files, merge_json_data, include_path, matches_of}
use syver.Store.Layers.{layers, Both, Overlay}
use syver.Store.Overlays.{merge_json_data-Overlay}
use syver.Store.Loops.{Fails, Loads, at_once, onward, merge_json_data-Fails}
use syver.Store.Vars.{Disk, no_vars_files, read_all}
use syver.Store.Once.{read_all-once}

abbrev including : String → String → SyverConfig
including mode file = record {
  resources = λ type key. if str_eq key "/etc/app" then some (str mode) else none;
  discovery = λ type key. none;
  syverfiles = record { key = file; file = file; skip = false } ∷ [];
  syverfile_alias = [];
}

abbrev leaf : SyverConfig
leaf = record (including "0600" "") { syverfiles = [] }

-- `loop.yaml` includes itself, every other file is a leaf.
abbrev files : Files
files = record {
  sorted = λ includes. includes;
  is_rooted = λ path. true;
  join = λ dir path. path;
  dir = λ path. "/etc";
  glob = λ path. ok (path ∷ []);
  quote = λ path. path;
  read_json = λ path. if str_eq path "/etc/loop.yaml" then ok (including "0644" path) else ok leaf;
}

abbrev root : SyverConfig
root = including "0644" "/etc/leaf.yaml"

merge_json_data-Overlay_example :
    Both Overlay (merge_json_data files 2 root "/etc") (layers files 2 root "/etc")
merge_json_data-Overlay_example = merge_json_data-Overlay files 2 root "/etc"

-- Two files that include each other.
abbrev there_and_back : Files
there_and_back = record files {
  read_json = λ path.
      if str_eq path "/etc/there.yaml"
      then ok (including "0644" "/etc/back.yaml")
      else ok (including "0644" "/etc/there.yaml");
}

abbrev there : SyverConfig
there = including "0644" "/etc/back.yaml"

abbrev back : SyverConfig
back = including "0644" "/etc/there.yaml"

Loads-there : Loads there_and_back back "/etc" "/etc/there.yaml" there
unfolding include_path matches_of
Loads-there = record {
  include = record { key = "/etc/there.yaml"; file = "/etc/there.yaml"; skip = false };
  matches = "/etc/there.yaml" ∷ [];
  listed = Memᴰ.head refl;
  taken = refl;
  expanded = refl;
  matched = Memᴰ.head refl;
  read = refl;
}

Loads-back : Loads there_and_back there "/etc" "/etc/back.yaml" back
unfolding include_path matches_of
Loads-back = record {
  include = record { key = "/etc/back.yaml"; file = "/etc/back.yaml"; skip = false };
  matches = "/etc/back.yaml" ∷ [];
  listed = Memᴰ.head refl;
  taken = refl;
  expanded = refl;
  matched = Memᴰ.head refl;
  read = refl;
}

merge_json_data-Fails_example : Fails (merge_json_data there_and_back 50 back "/etc")
merge_json_data-Fails_example =
    merge_json_data-Fails there_and_back 50 back "/etc"
      (inr (there, "/etc", at_once Loads-there, onward Loads-back (at_once Loads-there)))

-- A pipe that is empty once it was read.
abbrev pipe : Disk
pipe = record {
  plain = λ path. false;
  read = λ n path. elim n [ zero ↦ ok "a: 1" | suc m ↦ ok "" ];
}

read_all-once_example :
    (All
      (λ a. a.0 ≡ "/dev/fd/3" → a.1 ≡ ok "a: 1")
      (read_all pipe ("/dev/fd/3" ∷ "/dev/fd/3" ∷ []) no_vars_files).0)
    × ((read_all pipe ("/dev/fd/3" ∷ "/dev/fd/3" ∷ []) no_vars_files).1.reads "/dev/fd/3" ≤ 1)
read_all-once_example = read_all-once pipe "/dev/fd/3" ("/dev/fd/3" ∷ "/dev/fd/3" ∷ []) refl

yaml_name : get_store_format_from_file_name "/etc/v1.2/spec.yaml" ≡ ok yaml
unfolding get_store_format_from_file_name
yaml_name = refl

-- The entry of `gossfile:` wins.
folded_once :
    fold_alias
      (record { key = "a"; file = "b"; skip = false } ∷ [])
      (record { key = "a"; file = "c"; skip = false } ∷ [])
    ≡ record { key = "a"; file = "c"; skip = false } ∷ []
unfolding fold_alias
folded_once = refl
