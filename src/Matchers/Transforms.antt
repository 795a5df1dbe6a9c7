-- ===== src/Matchers/Transforms.antt =====
-- matchers/type_conversion.go: the conversions of a value before it is matched.
pub mod Laws
use syver.Prelude.{
  ℕ, String, concat, Bool, true, false, List, [], ◌∷◌, Option, none, some, Result, ok, err,
  if◌then◌else◌, ◌==◌,
}
use Prim.Native.Char.{Char, code}
use syver.Value.{
  Value, Values, none_left, item, nil, bool, int, float, str, strings, list, table, ℤ,
}

pub data Transformer : Type 0 where
  to_numeric to_string to_array : Transformer
  gjson : String → Transformer

-- `fmt.Sprintf("%v")`, regexp.Compile, strconv.ParseFloat after strings.TrimSpace, format.Object, gjson.Valid and
-- gjson.Get, and the text of the error that WithSafeTransform wraps another in.
pub record Formats : Type 0 where
  pub print : Value → String
  pub compile : String → Result String (String → Bool)
  pub parse_float : String → Result String ℕ
  pub object : Value → String
  pub valid_json : String → Bool
  pub get_json : String → String → Option Value
  pub wrap : Transformer → String → String

-- `strings.Join(vs, "\n")`
unfoldable pub join_lines : List String → String
join_lines [] = ""
join_lines (line ∷ []) = line
join_lines (line ∷ line' ∷ lines) = concat line (concat "\n" (join_lines (line' ∷ lines)))

-- `strings.Split(s, "\n")`, one character in front of what the rest of the text is split into.
abbrev split_char : Char → List String → List String
split_char c [] = String.◌∷◌ c "" ∷ []
split_char c (line ∷ lines) = if code c == 10 then "" ∷ line ∷ lines else String.◌∷◌ c line ∷ lines

unfoldable pub split_lines : String → List String
split_lines String.[] = "" ∷ []
split_lines (String.◌∷◌ c s) = split_char c (split_lines s)

module _ (formats : Formats) where
  abbrev print_each : Values → List String
  print_each none_left = []
  print_each (item v vs) = formats.print v ∷ print_each vs

  -- `ToString`
  unfoldable pub to_text : Value → String
  unfolding join_lines
  to_text (list vs) = join_lines (print_each vs)
  to_text (strings lines) = join_lines lines
  to_text v = formats.print v

  abbrev as_float : Result String ℕ → Result String Value
  as_float (err e) = err e
  as_float (ok x) = ok (float x)

  abbrev value_at : String → Option Value → Result String Value
  value_at path none = err (concat "path not found: " path)
  value_at path (some v) = ok v

  -- `ToNumeric`
  unfoldable pub numeric_of : Value → Result String Value
  unfolding to_text
  numeric_of (float x) = ok (float x)
  numeric_of (int i) = ok (int i)
  numeric_of (str s) = as_float (formats.parse_float s)
  numeric_of (strings lines) = as_float (formats.parse_float (to_text (strings lines)))
  numeric_of v = err (concat "expected numeric, Got:" (formats.object v))

  -- `ToArray`
  unfoldable pub array_of : Value → Value
  unfolding split_lines
  array_of (str s) = strings (split_lines s)
  array_of v = v

  -- `Gjson`
  unfoldable pub json_at : String → Value → Result String Value
  json_at path (str s) =
      if formats.valid_json s then value_at path (formats.get_json s path) else err "invalid json"
  json_at path v = err (concat "expected string, Got:" (formats.object v))

  unfoldable pub transform : Transformer → Value → Result String Value
  unfolding numeric_of to_text array_of json_at
  transform to_numeric v = numeric_of v
  transform to_string v = ok (str (to_text v))
  transform to_array v = ok (array_of v)
  transform (gjson path) v = json_at path v
