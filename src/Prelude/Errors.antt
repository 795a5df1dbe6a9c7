-- ===== src/Prelude/Errors.antt =====
-- A value or an error: Go's pair of a result and an `error`, of which one is set.
use mathlib.Core.Path.{◌≡◌, refl}

pub data Result (E A : Type 0) : Type 0 where
  err : E → Result E A
  ok : A → Result E A

infixl 5 ◌>>=◌
abbrev pub ◌>>=◌ : {E X Y : Type 0} → Result E X → (X → Result E Y) → Result E Y
err problem >>= next = err problem
ok x >>= next = next x

-- A chain that succeeds has a first step that does.
pub >>=-eq-ok :
    {E X Y : Type 0} (first : Result E X) (next : X → Result E Y) {y : Y}
    → (first >>= next) ≡ ok y
    → (x : X) × (first ≡ ok x) × (next x ≡ ok y)
>>=-eq-ok (err problem) next h = cc
>>=-eq-ok (ok x) next h = (x, refl, h)

pub ok_inj : {E A : Type 0} {x y : A} → Path (Result E A) (ok x) (ok y) → x ≡ y
ok_inj h = cc
