-- ===== src/Scheduler/Build.antt =====
-- dependency_scheduler.go: buildSchedule and hasDependencies.
pub mod Graph
pub mod Known
pub mod Sound
pub mod Lookup
use syver.Prelude.{
  ℕ, suc, String, concat, update, ◌≡◌, refl, List, [], ◌∷◌, ◌++◌, Option, none, some, Memᴰ, Bool,
  false, ◌||◌, Result, ok, err, ◌>>=◌, length, map,
}
use syver.Resource.{Resource, yaml_key, ref_of}
use syver.Scheduler.Refs.{
  ScheduleError, duplicate_reference, dependency_cycle, is_some, resolve_dependency_ref,
}
use syver.Scheduler.Cycles.{Mark, unvisited, Outcome, done, cycle, no_fuel, visit, visit_deps}

-- `scheduledResource`
pub record ScheduledResource : Type 0 where
  pub ref : String
  pub resource : Resource
  pub deps : List String

-- `index` and `refsByKey`.
pub record Index : Type 0 where
  pub index : String → Option Resource
  pub refs_by_key : String → List String

unfoldable pub empty_index : Index
empty_index = record { index = λ ref. none; refs_by_key = λ key. [] }

unfoldable pub add_reference : Index → Resource → Index
unfolding update
add_reference ix res = record {
  index = update ix.index (ref_of res) (some res);
  refs_by_key =
      update ix.refs_by_key (yaml_key res) (ix.refs_by_key (yaml_key res) ++ ref_of res ∷ []);
}

-- The first loop of `buildSchedule`.
unfoldable pub index_resources : Index → List Resource → Result ScheduleError Index
index_resources ix [] = ok ix
index_resources ix (res ∷ rest) = elim (ix.index (ref_of res)) [
  | some _ ↦ err (duplicate_reference (ref_of res))
  | none ↦ index_resources (add_reference ix res) rest
]

-- `canonicalDeps`
unfoldable pub canonical_deps : Index → List String → Result ScheduleError (List String)
canonical_deps ix [] = ok []
canonical_deps ix (dep ∷ deps) = do
  dep_ref ← resolve_dependency_ref dep ix.index ix.refs_by_key
  rest ← canonical_deps ix deps
  ok (dep_ref ∷ rest)

-- The second loop of `buildSchedule`.
unfoldable pub schedule_resources :
    Index → List Resource → Result ScheduleError (List ScheduledResource)
schedule_resources ix [] = ok []
schedule_resources ix (res ∷ rest) = do
  deps ← canonical_deps ix res.depends_on
  items ← schedule_resources ix rest
  ok (record { ref = ref_of res; resource = res; deps = deps } ∷ items)

-- `byRef`: a later item of the same reference replaces an earlier one.
unfoldable pub by_ref : (String → List String) → List ScheduledResource → String → List String
by_ref m [] = m
by_ref m (item ∷ items) = by_ref (update m item.ref item.deps) items

abbrev pub refs : List ScheduledResource → List String
refs items = map (λ (item : ScheduledResource). item.ref) items

-- Every reference that the schedule names: a bound for the depth of the search.
unfoldable pub universe : List ScheduledResource → List String
universe [] = []
universe (item ∷ items) = item.ref ∷ item.deps ++ universe items

-- Go ranges over a map in an order that it does not fix: any list of the same references.
pub record RangeOrder : Type 0 where
  pub order : List String → List String
  pub order_sound : (keys : List String) (k : String) → Memᴰ k (order keys) → Memᴰ k keys
  pub order_complete : (keys : List String) (k : String) → Memᴰ k keys → Memᴰ k (order keys)

module _ (range : RangeOrder) where
  -- `detectDependencyCycles`; the depth is bounded by the references there are.
  unfoldable pub detect_dependency_cycles : List ScheduledResource → Outcome
  unfolding by_ref
  detect_dependency_cycles schedule =
      visit_deps (visit (by_ref (λ ref. []) schedule) (suc (length (universe schedule))))
        (range.order (refs schedule)) (λ ref. unvisited)

  unfoldable pub accept :
      List ScheduledResource → Outcome → Result ScheduleError (List ScheduledResource)
  accept schedule (done state) = ok schedule
  accept schedule (cycle ref) = err (dependency_cycle ref)
  accept schedule no_fuel = err (dependency_cycle "")

  unfoldable pub build_schedule : List Resource → Result ScheduleError (List ScheduledResource)
  unfolding index_resources canonical_deps schedule_resources accept
  build_schedule resources = do
    ix ← index_resources empty_index resources
    schedule ← schedule_resources ix resources
    accept schedule (detect_dependency_cycles schedule)

-- `hasDependencies`
unfoldable pub has_dependencies : List Resource → Bool
has_dependencies [] = false
has_dependencies (res ∷ rest) = elim res.depends_on [
  | [] ↦ has_dependencies rest
  | dep ∷ deps ↦ Bool.true
]
