-- ===== src/Value.antt =====
-- The dynamic values of a spec and of the system: what Go's `any` holds after decoding YAML or JSON,
-- and what the checks of the system answer with.
use syver.Prelude.{ℕ, String, Bool, false, true, List}

-- An `int`: `negsuc n` is -(n + 1).
pub data ℤ : Type 0 where
  pos : ℕ → ℤ
  negsuc : ℕ → ℤ

-- A `float64` is its bit pattern; `strings` is a `[]string`, `list` a `[]any`, `table` a
-- `map[string]any`.
mutual
  pub data Value : Type 0 where
    nil : Value
    bool : Bool → Value
    int : ℤ → Value
    float : ℕ → Value
    str : String → Value
    strings : List String → Value
    list : Values → Value
    table : Entries → Value

  pub data Values : Type 0 where
    none_left : Values
    item : Value → Values → Values

  pub data Entries : Type 0 where
    end : Entries
    entry : String → Value → Entries → Entries

-- `v == false` for an interface value.
abbrev pub is_false : Value → Bool
is_false (bool false) = true
is_false _ = false
