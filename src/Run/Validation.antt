-- ===== src/Run/Validation.antt =====
-- validate.go: runValidation and validateParallel; the head of validateWithDependencies.
use mathlib.Core.List.{Permᴰ}
use syver.Prelude.{String, Bool, List, map, Option, none, some, Result, ok, ◌>>=◌, if◌then◌else◌}
use syver.Resource.{Resource}
use syver.Resource.Results.{TestResult}
use syver.Resource.Skips.{validate_safe}
use syver.Scheduler.Refs.{ScheduleError}
use syver.Scheduler.Build.{RangeOrder, build_schedule, has_dependencies}
use syver.Scheduler.Waves.{
  World, Workers, Emission, Finished, validate_schedule, apply_disabled_types,
}

abbrev pub Groups : Type 0
Groups = List (List TestResult)

-- The order in which the workers of validateParallel finish.
pub record ParallelOrder : Type 0 where
  pub order : List Resource → List Resource
  pub order_perm : (resources : List Resource) → Permᴰ (order resources) resources

module _ (world : World) where
  unfoldable pub check : Resource → List TestResult
  check res = validate_safe res (world.own_skip_reason res) (world.validation res)

  -- `validateParallel`
  unfoldable pub validate_parallel : ParallelOrder → List Resource → Groups
  unfolding check
  validate_parallel parallel resources = map check (parallel.order resources)

  abbrev groups_of : Option Finished → Option Groups
  groups_of none = none
  groups_of (some f) = some (map (λ (e : Emission). e.results) f.emissions)

  -- `validateWithDependencies`
  unfoldable pub validate_with_dependencies :
      Workers → RangeOrder → List Resource → Result ScheduleError (Option Groups)
  validate_with_dependencies workers range resources = do
    schedule ← build_schedule range resources
    ok (groups_of (validate_schedule world workers schedule))

  -- `runValidation`; `none` is the model's own, for a lack of fuel.
  unfoldable pub run_validation :
      Workers
      → RangeOrder
      → ParallelOrder
      → (String → List String → Bool)
      → List String
      → List Resource
      → Result ScheduleError (Option Groups)
  unfolding validate_with_dependencies validate_parallel
  run_validation workers range parallel is_value_in_list skip_list given =
      let resources = apply_disabled_types is_value_in_list skip_list given in
      if has_dependencies resources
      then validate_with_dependencies workers range resources
      else ok (some (validate_parallel parallel resources))
