-- ===== src/Matchers/Semver/Laws.antt =====
-- matchers/semver_constraint.go: when the matcher of a version constraint succeeds.
use syver.Prelude.{
  String, ◌≡◌, refl, sym, subst, ◌↔◌, Bool, true, false, ◌&&◌, List, [], ◌∷◌, All, Option, none,
  some,
}
use syver.Value.{Value, Values, none_left, item, nil, bool, int, float, str, strings, list, table}
use syver.Matchers.Semver.{
  to_version, versions_in, versions_among, to_versions, all_satisfy, semver_match, conclude,
  one_more, if_any, single,
}

and_iff : (b c : Bool) → ((b && c) ≡ true) ↔ ((b ≡ true) × (c ≡ true))
and_iff true c = ((λ h. (refl, h)), λ h. h.1)
and_iff false c = ((λ h. cc h), λ h. cc (h.0))

some_inj : {A : Type 0} {x y : A} → Path (Option A) (some x) (some y) → x ≡ y
some_inj h = cc

both : {A B C D : Type 0} → A ↔ (B × C) → C ↔ D → A ↔ (B × D)
both (to, from) (on, back) = ((λ a. ((to a).0, on (to a).1)), λ (b, d). from (b, back d))

through : {A B C : Type 0} → A ↔ B → B ↔ C → A ↔ C
through (to, from) (on, back) = ((λ a. on (to a)), λ c. from (back c))

module _ (Version : Type 0) (parse : String → Option Version)
    (parse_range : String → Option (Version → Bool)) (object : Value → String) where
  -- There is a version, and it is in the range.
  abbrev Admits : (Version → Bool) → Option Version → Type 0
  Admits constraint none = ⊥
  Admits constraint (some v) = constraint v ≡ true

  abbrev InRange : (Version → Bool) → Value → Type 0
  InRange constraint v = Admits constraint (to_version Version parse parse_range object v)

  abbrev EachInRange : (Version → Bool) → Values → Type 0
  EachInRange constraint none_left = Unit
  EachInRange constraint (item v vs) = InRange constraint v × EachInRange constraint vs

  -- A version in the range, or a list of them, which is not empty.
  abbrev pub Satisfies : (Version → Bool) → Value → Type 0
  Satisfies constraint (str s) = InRange constraint (str s)
  Satisfies constraint (list (item v vs)) = EachInRange constraint (item v vs)
  Satisfies constraint (strings (s ∷ ss)) = All (λ t. InRange constraint (str t)) (s ∷ ss)
  Satisfies constraint _ = ⊥

  -- The versions are there, and each is in the range.
  abbrev Holds : (Version → Bool) → Option (List Version) → Type 0
  Holds constraint none = ⊥
  Holds constraint (some vs) = all_satisfy Version parse parse_range object constraint vs ≡ true

  one_more-Holds :
      (constraint : Version → Bool) (first : Option Version) (rest : Option (List Version))
      → Holds constraint (one_more Version parse parse_range object first rest)
        ↔ (Admits constraint first × Holds constraint rest)
  unfolding all_satisfy
  one_more-Holds constraint none rest = ((λ h. absurd h), λ h. absurd h.0)
  one_more-Holds constraint (some v) none = ((λ h. absurd h), λ h. absurd h.1)
  one_more-Holds constraint (some v) (some vs) = and_iff (constraint v) _

  versions_in-Holds :
      (constraint : Version → Bool) (vs : Values)
      → Holds constraint (versions_in Version parse parse_range object vs)
        ↔ EachInRange constraint vs
  unfolding versions_in all_satisfy
  versions_in-Holds constraint none_left = ((λ h. tt), λ h. refl)
  versions_in-Holds constraint (item v vs) =
      both (one_more-Holds constraint _ _) (versions_in-Holds constraint vs)

  versions_among-Holds :
      (constraint : Version → Bool) (ss : List String)
      → Holds constraint (versions_among Version parse parse_range object ss)
        ↔ All (λ t. InRange constraint (str t)) ss
  unfolding versions_among all_satisfy
  versions_among-Holds constraint [] = ((λ h. tt), λ h. refl)
  versions_among-Holds constraint (s ∷ ss) =
      both (one_more-Holds constraint _ _) (versions_among-Holds constraint ss)

  -- A list that is not empty has as many versions.
  one_more-if_any :
      (constraint : Version → Bool) (first : Option Version) (rest : Option (List Version))
      → let more = one_more Version parse parse_range object first rest in
        Holds constraint (if_any Version parse parse_range object more) ↔ Holds constraint more
  one_more-if_any constraint none rest = ((λ h. h), λ h. h)
  one_more-if_any constraint (some v) none = ((λ h. h), λ h. h)
  one_more-if_any constraint (some v) (some vs) = ((λ h. h), λ h. h)

  single-Holds :
      (constraint : Version → Bool) (first : Option Version)
      → Holds constraint (single Version parse parse_range object first) ↔ Admits constraint first
  unfolding all_satisfy
  single-Holds constraint none = ((λ h. h), λ h. h)
  single-Holds constraint (some v) =
      let (to, from) = and_iff (constraint v) true in ((λ h. (to h).0), λ h. from (h, refl))

  to_versions-Holds :
      (constraint : Version → Bool) (actual : Value)
      → Holds constraint (to_versions Version parse parse_range object actual)
        ↔ Satisfies constraint actual
  unfolding to_versions versions_in versions_among
  to_versions-Holds constraint (str s) = single-Holds constraint _
  to_versions-Holds constraint (list none_left) = ((λ h. h), λ h. h)
  to_versions-Holds constraint (list (item v vs)) =
      through (one_more-if_any constraint _ _) (versions_in-Holds constraint (item v vs))
  to_versions-Holds constraint (strings []) = ((λ h. h), λ h. h)
  to_versions-Holds constraint (strings (s ∷ ss)) =
      through (one_more-if_any constraint _ _) (versions_among-Holds constraint (s ∷ ss))
  to_versions-Holds constraint nil = ((λ h. h), λ h. h)
  to_versions-Holds constraint (bool b) = ((λ h. h), λ h. h)
  to_versions-Holds constraint (int i) = ((λ h. h), λ h. h)
  to_versions-Holds constraint (float x) = ((λ h. h), λ h. h)
  to_versions-Holds constraint (table es) = ((λ h. h), λ h. h)

  conclude-Holds :
      (text : String) (actual : Value) (range : Option (Version → Bool))
      (versions : Option (List Version))
      → ((conclude Version parse parse_range object text actual range versions).0 ≡ true)
        ↔ ((constraint : Version → Bool) × (range ≡ some constraint) × Holds constraint versions)
  conclude-Holds text actual none versions = ((λ h. cc), λ (c, e, h). cc)
  conclude-Holds text actual (some constraint) none = ((λ h. cc), λ (c, e, h). absurd h)
  conclude-Holds text actual (some constraint) (some vs) = (
    (λ h. (constraint, refl, h)),
    λ (c, e, h). subst (λ r. Holds r (some vs)) (sym (some_inj e)) h,
  )

  -- A version constraint succeeds exactly when its text is a range, and the value is the text of a
  -- version in the range, or a list of such texts that is not empty: an empty list does not pass.
  pub semver_match_iff :
      (text : String) (actual : Value)
      → ((semver_match Version parse parse_range object text actual).0 ≡ true) ↔ (
          (constraint : Version → Bool) × (parse_range text ≡ some constraint)
          × Satisfies constraint actual)
  unfolding semver_match
  semver_match_iff text actual =
      let (to, from) =
        conclude-Holds text actual (parse_range text)
          (to_versions Version parse parse_range object actual) in
      (
        (λ h. let (c, e, held) = to h in (c, e, (to_versions-Holds c actual).0 held)),
        λ (c, e, held). from (c, e, (to_versions-Holds c actual).1 held),
      )
