-- ===== src/Scheduler/Refs.antt =====
-- dependency_scheduler.go: resolveDependencyRef.
pub mod Laws
use Prim.Native.Char.{code}
use syver.Prelude.{
  String, str_eq, concat, Bool, true, false, ◌||◌, List, [], ◌∷◌, Option, none, some, if◌then◌else◌,
  Result, ok, err, ◌==◌,
}
use syver.Resource.{Resource}

-- The errors of the scheduler, with what their messages name.
pub data ScheduleError : Type 0 where
  duplicate_reference : String → ScheduleError
  invalid_reference : String → ScheduleError
  reference_not_found : String → ScheduleError
  ambiguous_reference : String → List String → ScheduleError
  dependency_cycle : String → ScheduleError

-- `strings.Contains(dep, ":")`
unfoldable pub contains_colon : String → Bool
contains_colon String.[] = false
contains_colon (String.◌∷◌ c s) = code c == b':' || contains_colon s

abbrev put_first : String → List String → List String
put_first c [] = c ∷ []
put_first c (p ∷ ps) = concat c p ∷ ps

-- `strings.SplitN(dep, ":", 2)`
unfoldable pub split_colon : String → List String
split_colon String.[] = "" ∷ []
split_colon (String.◌∷◌ c s) =
    if code c == b':' then "" ∷ s ∷ [] else put_first (String.◌∷◌ c String.[]) (split_colon s)

abbrev pub is_some : Option Resource → Bool
is_some (some res) = true
is_some none = false

-- The `type:key` branch.
resolve_parts : String → List String → (String → Option Resource) → Result ScheduleError String
resolve_parts dep (t ∷ key ∷ []) index =
    if str_eq t "" || str_eq key ""
    then err (invalid_reference dep)
    else let ref = concat t (concat ":" key) in
      if is_some (index ref) then ok ref else err (reference_not_found dep)
resolve_parts dep _ index = err (invalid_reference dep)

-- The bare key branch: the references that share the key.
resolve_key : String → List String → Result ScheduleError String
resolve_key dep [] = err (reference_not_found dep)
resolve_key dep (m ∷ []) = ok m
resolve_key dep matches = err (ambiguous_reference dep matches)

unfoldable pub resolve_dependency_ref :
    String → (String → Option Resource) → (String → List String) → Result ScheduleError String
unfolding resolve_parts resolve_key
resolve_dependency_ref dep index refs_by_key =
    if contains_colon dep
    then resolve_parts dep (split_colon dep) index
    else resolve_key dep (refs_by_key dep)
