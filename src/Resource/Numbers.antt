-- ===== src/Resource/Numbers.antt =====
-- strconv.Atoi, as deprecateAtoI of resource/resource.go calls it: of a text that is both too long and no number, the
-- error tells the one or the other.
pub mod Texts
use Prim.Native.Char.{code}
use syver.Prelude.{
  ℕ, zero, suc, ◌+◌, ◌-◌, ◌*◌, ◌^◌, String, concat, Bool, true, false, ◌&&◌, Option, none, some,
  Result, ok, err, if◌then◌else◌, ltb, leb, ◌==◌,
}
use syver.Value.{ℤ, pos, negsuc}

-- The digits of a text, onto the number that stands before them.
unfoldable pub digits : ℕ → String → Option ℕ
digits n String.[] = some n
digits n (String.◌∷◌ c s) =
    let rest = digits (n * 10 + (code c - b'0')) s in
    if leb b'0' (code c) && leb (code c) b'9' then rest else none

-- At least one digit.
unfoldable pub unsigned : String → Option ℕ
unfolding digits
unsigned String.[] = none
unsigned (String.◌∷◌ c s) = digits 0 (String.◌∷◌ c s)

-- -n, for a number up to 2 ^ 63.
unfoldable pub negated : ℕ → ℤ
negated zero = pos 0
negated (suc n) = negsuc n

module _ (quote : String → String) where
  abbrev pub syntax_error : String → String
  syntax_error s = concat "strconv.Atoi: parsing " (concat (quote s) ": invalid syntax")

  abbrev pub range_error : String → String
  range_error s = concat "strconv.Atoi: parsing " (concat (quote s) ": value out of range")

  -- An int of 64 bits.
  unfoldable pub in_range : String → Bool → Option ℕ → Result String ℤ
  unfolding negated
  in_range s negative none = err (syntax_error s)
  in_range s false (some n) = if ltb n (2 ^ 63) then ok (pos n) else err (range_error s)
  in_range s true (some n) = if leb n (2 ^ 63) then ok (negated n) else err (range_error s)

  unfoldable pub atoi : String → Result String ℤ
  unfolding unsigned in_range
  atoi String.[] = err (syntax_error "")
  atoi (String.◌∷◌ c s) =
      if code c == b'-'
      then in_range (String.◌∷◌ c s) true (unsigned s)
      else if code c == b'+'
      then in_range (String.◌∷◌ c s) false (unsigned s)
      else in_range (String.◌∷◌ c s) false (unsigned (String.◌∷◌ c s))
