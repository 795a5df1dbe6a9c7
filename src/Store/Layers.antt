-- ===== src/Store/Layers.antt =====
-- store.go: what mergeJSONData makes of a spec, against the list of the specs that it loads.
use syver.Prelude.{
  ℕ, zero, suc, String, concat, ◌≡◌, refl, ap, Bool, true, false, List, [], ◌∷◌, ◌++◌, Option, none,
  Result, ok, err, ◌>>=◌, if◌then◌else◌,
}
use syver.Value.{Value}
use syver.Store.{Include, SyverConfig, override}
use syver.Store.Merge.{Files, during, err_max_depth, include_path, matches_of}

-- The specs that are loaded, in their order: a spec, and behind it those that it includes.
module _ (files : Files) where
  module _ (next : SyverConfig → String → Result String (List SyverConfig)) where
    unfoldable pub match_layers : String → Result String (List SyverConfig)
    match_layers match = do
      j ← during (concat "could not read json data in " (concat match ": ")) (files.read_json match)
      during "could not write json data: " (next j (files.dir match))

    unfoldable pub matches_layers : List String → Result String (List SyverConfig)
    matches_layers [] = ok []
    matches_layers (match ∷ matches) = do
      first ← match_layers match
      rest ← matches_layers matches
      ok (first ++ rest)

    unfoldable pub include_layers : String → Include → Result String (List SyverConfig)
    include_layers path g =
        if g.skip then ok [] else (matches_of files (include_path files path g) >>= matches_layers)

    unfoldable pub includes_layers : String → List Include → Result String (List SyverConfig)
    includes_layers path [] = ok []
    includes_layers path (g ∷ gs) = do
      first ← include_layers path g
      rest ← includes_layers path gs
      ok (first ++ rest)

  unfoldable pub layers : ℕ → SyverConfig → String → Result String (List SyverConfig)
  layers zero c path = err err_max_depth
  layers (suc levels) c path = do
    rest ← includes_layers (layers levels) path (files.sorted c.syverfiles)
    ok (c ∷ rest)

-- The resources of a spec, or its discoverable ones.
abbrev pub part : Bool → SyverConfig → String → String → Option Value
part false c = c.resources
part true c = c.discovery

-- The value of the last spec that has one.
abbrev pub last_value : Bool → List SyverConfig → String → String → Option Value
last_value discovered [] type key = none
last_value discovered (c ∷ cs) type key =
    override (last_value discovered cs type key) (part discovered c type key)

-- Two computations fail with the same error, or succeed with results that are related.
abbrev pub Both : {A B : Type 0} → (A → B → Type 0) → Result String A → Result String B → Type 0
Both P (ok a) (ok b) = P a b
Both P (err e) (err e') = e ≡ e'
Both P _ _ = ⊥

abbrev pub Overlay : SyverConfig → List SyverConfig → Type 0
Overlay c cs =
    (discovered : Bool) (type key : String)
    → part discovered c type key ≡ last_value discovered cs type key

-- The same, over a spec that was there before.
abbrev pub Extends : SyverConfig → SyverConfig → List SyverConfig → Type 0
Extends before c cs =
    (discovered : Bool) (type key : String)
    → part discovered c type key
      ≡ override (last_value discovered cs type key) (part discovered before type key)

pub >>=-Both :
    {A B C D : Type 0} (P : A → B → Type 0) (Q : C → D → Type 0) (x : Result String A)
    (y : Result String B) (f : A → Result String C) (g : B → Result String D)
    → Both P x y
    → ((a : A) (b : B) → P a b → Both Q (f a) (g b))
    → Both Q (x >>= f) (y >>= g)
>>=-Both P Q (ok a) (ok b) f g h k = k a b h
>>=-Both P Q (err e) (err e') f g h k = h
>>=-Both P Q (ok a) (err e) f g h k = absurd h
>>=-Both P Q (err e) (ok b) f g h k = absurd h

pub Both-refl : {A : Type 0} (x : Result String A) → Both (λ a b. a ≡ b) x x
Both-refl (ok a) = refl
Both-refl (err e) = refl

-- What follows on the right alone, and cannot fail.
pub Both-right :
    {A B C : Type 0} (P : A → B → Type 0) (Q : A → C → Type 0) (x : Result String A)
    (y : Result String B) (h : B → C)
    → Both P x y
    → ((a : A) (b : B) → P a b → Q a (h b))
    → Both Q x (y >>= λ b. ok (h b))
Both-right P Q (ok a) (ok b) h p k = k a b p
Both-right P Q (err e) (err e') h p k = p
Both-right P Q (ok a) (err e) h p k = absurd p
Both-right P Q (err e) (ok b) h p k = absurd p

pub during-Both :
    {A B : Type 0} (P : A → B → Type 0) (context : String) (x : Result String A)
    (y : Result String B)
    → Both P x y
    → Both P (during context x) (during context y)
during-Both P context (ok a) (ok b) p = p
during-Both P context (err e) (err e') p = ap (concat context) p
during-Both P context (ok a) (err e) p = absurd p
during-Both P context (err e) (ok b) p = absurd p
