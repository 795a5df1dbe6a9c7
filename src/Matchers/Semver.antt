-- ===== src/Matchers/Semver.antt =====
-- matchers/semver_constraint.go. The semver library is a parameter: what it parses, and its ranges.
pub mod Laws
use syver.Prelude.{String, concat, Bool, true, false, ◌&&◌, List, [], ◌∷◌, Option, none, some}
use syver.Value.{Value, Values, none_left, item, nil, bool, int, float, str, strings, list, table}

module _ (Version : Type 0) (parse : String → Option Version)
    (parse_range : String → Option (Version → Bool)) (object : Value → String) where
  -- `toVersion`, and the loops of `toVersions`, which give up at the first element that is none.
  unfoldable pub to_version : Value → Option Version
  to_version (str s) = parse s
  to_version v = none

  abbrev one_more : Option Version → Option (List Version) → Option (List Version)
  one_more none rest = none
  one_more (some v) none = none
  one_more (some v) (some vs) = some (v ∷ vs)

  unfoldable pub versions_in : Values → Option (List Version)
  unfolding to_version
  versions_in none_left = some []
  versions_in (item v vs) = one_more (to_version v) (versions_in vs)

  unfoldable pub versions_among : List String → Option (List Version)
  unfolding to_version
  versions_among [] = some []
  versions_among (s ∷ ss) = one_more (to_version (str s)) (versions_among ss)

  -- `return out, len(out) > 0`
  abbrev if_any : Option (List Version) → Option (List Version)
  if_any none = none
  if_any (some []) = none
  if_any (some (v ∷ vs)) = some (v ∷ vs)

  abbrev single : Option Version → Option (List Version)
  single none = none
  single (some v) = some (v ∷ [])

  unfoldable pub to_versions : Value → Option (List Version)
  unfolding to_version versions_in versions_among
  to_versions (str s) = single (to_version (str s))
  to_versions (list vs) = if_any (versions_in vs)
  to_versions (strings ss) = if_any (versions_among ss)
  to_versions v = none

  unfoldable pub all_satisfy : (Version → Bool) → List Version → Bool
  all_satisfy constraint [] = true
  all_satisfy constraint (v ∷ vs) = constraint v && all_satisfy constraint vs

  -- From `toConstraint` of the text, and the versions.
  abbrev pub conclude :
      String → Value → Option (Version → Bool) → Option (List Version) → Bool × Option String
  conclude text actual none versions =
      (false, some (concat "expected a valid semver constraint.  Got:\n" (object (str text))))
  conclude text actual (some constraint) none = (
    false,
    some (concat "expected a single or list of semver valid version(s).  Got:\n" (object actual)),
  )
  conclude text actual (some constraint) (some versions) = (all_satisfy constraint versions, none)

  -- `BeSemverConstraintMatcher.Match`; its constraint is always a text.
  unfoldable pub semver_match : String → Value → Bool × Option String
  unfolding to_versions all_satisfy
  semver_match text actual = conclude text actual (parse_range text) (to_versions actual)
