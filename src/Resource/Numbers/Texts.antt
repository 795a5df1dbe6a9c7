-- ===== src/Resource/Numbers/Texts.antt =====
-- The texts of ints, as strconv.Atoi reads them.
use Prim.Native.Char.{code}
use syver.Prelude.{
  ℕ, suc, ◌+◌, ◌-◌, ◌*◌, ◌^◌, ◌<◌, ◌≤◌, String, ◌≡◌, ◌≢◌, refl, sym, ap, some, ok, ltb, leb, ◌==◌,
  false, true, arith,
}
use syver.Value.{ℤ, pos, negsuc}
use syver.Resource.Numbers.{atoi, digits, unsigned, in_range, negated}

-- The text is decimal digits, which read, behind a number that stands before them, as `n`.
abbrev pub Decimal : ℕ → String → ℕ → Type 0
Decimal before String.[] n = n ≡ before
Decimal before (String.◌∷◌ c s) n =
    (b'0' ≤ code c) × (code c ≤ b'9') × Decimal (before * 10 + (code c - b'0')) s n

abbrev pub Number : String → ℕ → Type 0
Number s n = (s ≢ "") × Decimal 0 s n

-- The text of an int of 64 bits: at least one decimal digit, behind a sign or none.
pub data IntText : String → ℤ → Type 0 where
  unsigned_text : {s : String} {n : ℕ} → Number s n → n < 2 ^ 63 → IntText s (pos n)
  plus_text : {s : String} {n : ℕ} → Number s n → n < 2 ^ 63 → IntText (String.◌∷◌ "+" s) (pos n)
  minus_text :
      {s : String} {n : ℕ} → Number s (suc n) → n < 2 ^ 63 → IntText (String.◌∷◌ "-" s) (negsuc n)
  minus_zero : {s : String} → Number s 0 → IntText (String.◌∷◌ "-" s) (pos 0)

digits-Decimal : (before : ℕ) (s : String) (n : ℕ) → Decimal before s n → digits before s ≡ some n
unfolding digits
digits-Decimal before String.[] n e = ap some (sym e)
digits-Decimal before (String.◌∷◌ c s) n (low, high, rest) =
    let ih = digits-Decimal (before * 10 + (code c - b'0')) s n rest in
    ground (arith, ih, low, high)

unsigned-Number : (s : String) (n : ℕ) → Number s n → unsigned s ≡ some n
unfolding unsigned
unsigned-Number String.[] n (full, e) = absurd (full refl)
unsigned-Number (String.◌∷◌ c s) n (full, e) = digits-Decimal 0 (String.◌∷◌ c s) n e

module _ (quote : String → String) where
  plain : (s : String) (n : ℕ) → Number s n → n < 2 ^ 63 → atoi quote s ≡ ok (pos n)
  unfolding atoi in_range
  plain String.[] n (full, e) h = absurd (full refl)
  plain (String.◌∷◌ c s) n (full, (low, high, e)) h =
      let read = unsigned-Number (String.◌∷◌ c s) n (full, (low, high, e)) in
      let no_minus : (code c == b'-') ≡ false = ground (arith, low) in
      let no_plus : (code c == b'+') ≡ false = ground (arith, low) in
      let small : ltb n (2 ^ 63) ≡ true = ground (arith, h) in
      rw (no_minus, no_plus, read, small) refl

  -- The text of an int is read as that int.
  pub atoi-IntText : (s : String) (i : ℤ) → IntText s i → atoi quote s ≡ ok i
  unfolding atoi in_range negated
  atoi-IntText s _ (unsigned_text {n = n} number h) = plain s n number h
  atoi-IntText _ _ (plus_text {s = s} {n = n} number h) =
      let small : ltb n (2 ^ 63) ≡ true = ground (arith, h) in
      rw (unsigned-Number s n number, small) refl
  atoi-IntText _ _ (minus_text {s = s} {n = n} number h) =
      let small : leb (suc n) (2 ^ 63) ≡ true = ground (arith, h) in
      rw (unsigned-Number s (suc n) number, small) refl
  atoi-IntText _ _ (minus_zero {s = s} number) = rw (unsigned-Number s 0 number) refl
