-- ===== src/Prelude/Maps.antt =====
-- Texts compared for equality, and maps from text keys as functions.
use Prim.Native.String.{String}
use mathlib.Core.Path.{◌≡◌, refl}
use mathlib.Core.Logic.{◌≢◌}
use mathlib.Core.Bool.{Bool, true, false}
use native.Mathlib.Omega.{arith}
use text.Mathlib.Text.{◌==◌ as str_beq}
use text.Mathlib.TextEquality.{eq_iff}
use syver.Prelude.Tests.{if◌then◌else◌}

-- `s == t` on texts.
abbrev pub str_eq : String → String → Bool
str_eq s t = str_beq s t

-- `s + t` on texts.
unfoldable pub concat : String → String → String
concat String.[] t = t
concat (String.◌∷◌ c s) t = String.◌∷◌ c (concat s t)

pub eq_of_str_eq : (s t : String) → str_eq s t ≡ true → s ≡ t
eq_of_str_eq s t = (eq_iff s t).0

pub str_eq_self : (s : String) → str_eq s s ≡ true
str_eq_self s = (eq_iff s s).1 refl

pub str_eq_of_ne : (s t : String) → s ≢ t → str_eq s t ≡ false
str_eq_of_ne s t h = ground (arith, eq_iff s t)

module _ {ℓ} {V : Type ℓ} where
  -- `m[k] = v`
  unfoldable pub update : (String → V) → String → V → String → V
  update m k v j = if str_eq k j then v else m j

  pub update_self : (m : String → V) (k : String) (v : V) → update m k v k ≡ v
  unfolding update
  update_self m k v = rw (str_eq_self k)

  pub update_ne : (m : String → V) (k j : String) (v : V) → k ≢ j → update m k v j ≡ m j
  unfolding update
  update_ne m k j v h = rw (str_eq_of_ne k j h)
