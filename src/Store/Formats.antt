-- ===== src/Store/Formats.antt =====
-- store.go: getStoreFormatFromFileName, getStoreFormatFromData.
use Prim.Native.Char.{code}
use syver.Prelude.{
  String, concat, str_eq, Bool, false, not, ◌&&◌, ◌||◌, Result, ok, err, if◌then◌else◌, ◌==◌,
}

-- UNSET, JSON, YAML
pub data StoreFormat : Type 0 where
  unset json yaml : StoreFormat

-- `filepath.Ext`, where `/` separates: from the last dot of the last element.
unfoldable pub has_slash : String → Bool
has_slash String.[] = false
has_slash (String.◌∷◌ c s) = code c == b'/' || has_slash s

unfoldable pub extension : String → String
unfolding has_slash
extension String.[] = ""
extension (String.◌∷◌ c s) =
    let later = extension s in
    if str_eq later "" && code c == b'.' && not (has_slash s) then String.◌∷◌ c s else later

unfoldable pub get_store_format_from_file_name : String → Result String StoreFormat
unfolding extension
get_store_format_from_file_name f =
    let ext = extension f in
    if str_eq ext ".json"
    then ok json
    else if str_eq ext ".yaml" || str_eq ext ".yml"
    then ok yaml
    else err (concat "unknown file extension: " ext)

-- JSON is tried first: every JSON text is a YAML text as well.
unfoldable pub get_store_format_from_data :
    (String → Bool) → (String → Bool) → String → Result String StoreFormat
get_store_format_from_data is_json is_yaml text =
    if is_json text
    then ok json
    else if is_yaml text
    then ok yaml
    else err "unable to determine format from content"
