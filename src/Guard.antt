-- ===== src/Guard.antt =====
-- toplevel_guard.go: the warnings on unknown top-level keys, and the key that is suggested.
pub mod Edits
pub mod Rows
pub mod Suggest
pub mod Warnings
mod Tests
use Prim.Native.Char.{code}
use syver.Prelude.{
  ℕ, zero, suc, ◌+◌, String, Bool, true, false, not, ◌&&◌, any, str_eq, Option, none, some, List,
  [], ◌∷◌, if◌then◌else◌, ltb, leb, ◌==◌, length,
}

-- `[]rune(s)`
unfoldable pub runes : String → List ℕ
runes String.[] = []
runes (String.◌∷◌ c s) = code c ∷ runes s

-- `if n < m { m = n }`
unfoldable pub lower : ℕ → ℕ → ℕ
lower m n = if ltb n m then n else m

unfoldable pub cost_of : ℕ → ℕ → ℕ
cost_of x y = if x == y then 0 else 1

-- The least of `del`, `ins` and `sub`, from the cells above, to the left and across.
unfoldable pub cell : ℕ → ℕ → ℕ → ℕ → ℕ
unfolding lower
cell up left across cost = lower (lower (up + 1) (left + 1)) (across + cost)

-- The loop over `j`: `across` is `prev[j-1]`, the list holds `prev[j]` and the cells behind it, and
-- `left` is `curr[j-1]`.
unfoldable pub fill : ℕ → List ℕ → ℕ → List ℕ → ℕ → List ℕ
unfolding cell cost_of
fill x [] across ups left = []
fill x (y ∷ ys) across [] left = []
fill x (y ∷ ys) across (up ∷ ups) left =
    let m = cell up left across (cost_of x y) in m ∷ fill x ys up ups m

-- `curr`, from `prev`.
unfoldable pub next_row : ℕ → ℕ → List ℕ → List ℕ → List ℕ
unfolding fill
next_row i x rb [] = []
next_row i x rb (across ∷ ups) = i ∷ fill x rb across ups i

-- The loop over `i`.
unfoldable pub rows : ℕ → List ℕ → List ℕ → List ℕ → List ℕ
unfolding next_row
rows i [] rb prev = prev
rows i (x ∷ ra) rb prev = rows (suc i) ra rb (next_row i x rb prev)

-- `for j := 0; j <= lb; j++ { prev[j] = j }`
unfoldable pub first_row : ℕ → List ℕ → List ℕ
first_row j [] = j ∷ []
first_row j (y ∷ ys) = j ∷ first_row (suc j) ys

-- `prev[lb]`
unfoldable pub last_cell : List ℕ → ℕ
last_cell [] = 0
last_cell (m ∷ []) = m
last_cell (m ∷ m' ∷ ms) = last_cell (m' ∷ ms)

unfoldable pub distance : List ℕ → List ℕ → ℕ
unfolding rows first_row last_cell
distance [] rb = length rb
distance (x ∷ ra) [] = length (x ∷ ra)
distance (x ∷ ra) (y ∷ rb) = last_cell (rows 1 (x ∷ ra) (y ∷ rb) (first_row 0 (y ∷ rb)))

-- `levenshtein`
unfoldable pub levenshtein : String → String → ℕ
unfolding distance
levenshtein a b = distance (runes a) (runes b)

-- The loop of `suggestKey`, with `best` and `bestDist`.
unfoldable pub suggest_from : String → List String → String → ℕ → String
suggest_from key [] best best_dist = best
suggest_from key (k ∷ candidates) best best_dist =
    let d = levenshtein key k in
    if leb 1 d && leb d 2 && ltb d best_dist
    then suggest_from key candidates k d
    else suggest_from key candidates best best_dist

-- `suggestKey`; `sorted` is `sort.Strings`.
unfoldable pub suggest_key : (List String → List String) → String → List String → String
unfolding suggest_from
suggest_key sorted key legal = suggest_from key (sorted legal) "" 3

-- `yaml.Node`, of go.yaml.in/yaml/v3, as far as it is read.
pub data Kind : Type 0 where
  scalar mapping other_kind : Kind

pub record Node : Type 0 where
  pub kind : Kind
  pub value : String
  pub anchor : String
  pub line : ℕ

-- A document: its kind, and the keys and values of its top level in turn.
pub record Document : Type 0 where
  pub kind : Kind
  pub content : List Node

-- `topLevelWarning`
pub record Warning : Type 0 where
  pub path : String
  pub line : ℕ
  pub key : String
  pub suggestion : String

abbrev pub is_scalar : Kind → Bool
is_scalar scalar = true
is_scalar _ = false

-- `legalTopLevelKeys`, from the keys of `resource.Descriptors()`.
unfoldable pub legal_top_level_keys : List String → List String
legal_top_level_keys descriptors = "discovery" ∷ "syverfile" ∷ descriptors

-- `valueHasAnchor`
unfoldable pub value_has_anchor : Node → Bool
value_has_anchor n = not (str_eq n.anchor "")

-- `strings.HasPrefix(key, "x-")`
unfoldable pub is_extension : String → Bool
is_extension (String.◌∷◌ c (String.◌∷◌ d s)) = code c == b'x' && code d == b'-'
is_extension _ = false

module _ (sorted : List String → List String) (legal : List String) (path : String) where
  -- Whether the pair gets a warning.
  unfoldable pub warns : Node → Node → Bool
  unfolding value_has_anchor is_extension
  warns key_node val_node =
      is_scalar key_node.kind
      && not (any (λ k. str_eq k key_node.value) legal)
      && not (is_extension key_node.value)
      && not (value_has_anchor val_node)

  unfoldable pub warning_for : Node → Warning
  warning_for key_node = record {
    path = path;
    line = key_node.line;
    key = key_node.value;
    suggestion = suggest_key sorted key_node.value legal;
  }

  -- The loop over `doc.Content`, two nodes at a time.
  unfoldable pub check_pairs : List Node → List Warning
  check_pairs [] = []
  check_pairs (key_node ∷ []) = []
  check_pairs (key_node ∷ val_node ∷ content) =
      let rest = check_pairs content in
      if warns key_node val_node then warning_for key_node ∷ rest else rest

  -- `checkTopLevelKeys`, on what the parser makes of the text: `none` for an error, and the
  -- documents otherwise.
  unfoldable pub check_top_level_keys : Option (List Document) → List Warning
  unfolding check_pairs
  check_top_level_keys none = []
  check_top_level_keys (some []) = []
  check_top_level_keys (some (doc ∷ docs)) = elim doc.kind [
    | mapping ↦ check_pairs doc.content
    | _ ↦ []
  ]
