-- ===== src/Run/Covering.antt =====
-- Every resource of a run is reported, once.
use mathlib.Core.List.{Perm}
use mathlib.Core.List.Perm
use syver.Prelude.{
  String, ◌≡◌, refl, sym, subst, ap, ◌⊎◌, inl, inr, Bool, List, [], ◌∷◌, map, Option, some, Result,
  ok, err, All, Memᴰ,
}
use syver.Resource.{Resource}
use syver.Resource.Skips.{validate_safe}
use syver.Resource.Results.{TestResult}
use syver.Scheduler.Refs.{ScheduleError}
use syver.Scheduler.Build.{ScheduledResource, RangeOrder, build_schedule}
use syver.Scheduler.Build.Sound.{build_schedule-IsSchedule}
use syver.Scheduler.Waves.{
  World, Workers, Emission, Finished, validate_schedule, apply_disabled_types,
}
use syver.Scheduler.Waves.Passing.{sources}
use syver.Scheduler.Waves.Verdicts.{Reported}
use syver.Scheduler.Waves.Reporting.{validate_schedule-Reported}
use syver.Run.Disabling.{Bound, RunAsAll, has_dependencies-Bound, apply_disabled_types-RunAs}
use syver.Run.Validation.{
  Groups, ParallelOrder, check, validate_parallel, validate_with_dependencies, run_validation,
}

-- A resource, as it was run, and what was sent for it.
abbrev pub Report : Type 0
Report = Resource × List TestResult

-- The groups are those of some reports, one for each of the resources, and each of its own kind.
pub record Covers (Answer : Resource → List TestResult → Type 0) (resources : List Resource)
    (groups : Groups) : Type 0 where
  pub reports : List Report
  pub each_once : Perm (map (λ (r : Report). r.0) reports) resources
  pub sent : map (λ (r : Report). r.1) reports ≡ groups
  pub answered : All (λ (r : Report). Answer r.0 r.1) reports

reports_of : List Emission → List Report
reports_of [] = []
reports_of (e ∷ es) = (e.source.resource, e.results) ∷ reports_of es

abbrev resources_of : List ScheduledResource → List Resource
resources_of items = map (λ (item : ScheduledResource). item.resource) items

reports_of-resources :
    (es : List Emission) → map (λ (r : Report). r.0) (reports_of es) ≡ resources_of (sources es)
unfolding reports_of
reports_of-resources [] = refl
reports_of-resources (e ∷ es) = ap (λ l. e.source.resource ∷ l) (reports_of-resources es)

reports_of-results :
    (es : List Emission)
    → map (λ (r : Report). r.1) (reports_of es) ≡ map (λ (e : Emission). e.results) es
unfolding reports_of
reports_of-results [] = refl
reports_of-results (e ∷ es) = ap (λ l. e.results ∷ l) (reports_of-results es)

module _ (world : World) where
  checked : List Resource → List Report
  checked [] = []
  checked (res ∷ rest) = (res, check world res) ∷ checked rest

  checked-resources : (rs : List Resource) → map (λ (r : Report). r.0) (checked rs) ≡ rs
  unfolding checked
  checked-resources [] = refl
  checked-resources (res ∷ rest) = ap (λ l. res ∷ l) (checked-resources rest)

  checked-results :
      (rs : List Resource) → map (λ (r : Report). r.1) (checked rs) ≡ map (check world) rs
  unfolding checked
  checked-results [] = refl
  checked-results (res ∷ rest) = ap (λ l. check world res ∷ l) (checked-results rest)

  -- The group is what the check of the resource returns or, where it panics, what stands for that.
  abbrev pub Answered : Resource → List TestResult → Type 0
  Answered res group = group ≡ validate_safe res (world.own_skip_reason res) (world.validation res)

  checked-Answered : (rs : List Resource) → All (λ (r : Report). Answered r.0 r.1) (checked rs)
  unfolding checked check
  checked-Answered [] = tt
  checked-Answered (res ∷ rest) = (refl, checked-Answered rest)

  validate_parallel-Covers :
      (parallel : ParallelOrder) (rs : List Resource)
      → Covers Answered rs (validate_parallel world parallel rs)
  unfolding validate_parallel
  validate_parallel-Covers parallel rs = record {
    reports = checked (parallel.order rs);
    each_once =
        subst (λ l. Perm l rs) (sym (checked-resources (parallel.order rs)))
          ∣ parallel.order_perm rs ∣₁;
    sent = checked-results (parallel.order rs);
    answered = checked-Answered (parallel.order rs);
  }

  -- The group is what the schedule's run sent for an item of the resource, by its prerequisites.
  abbrev pub Sent : Finished → Resource → List TestResult → Type 0
  Sent f res group =
      (e : Emission) × Memᴰ e f.emissions
      × (e.source.resource ≡ res)
      × (e.results ≡ group)
      × Reported world f.final e

  reports_of-Sent :
      (f : Finished) (es : List Emission)
      → ((e : Emission) → Memᴰ e es → Memᴰ e f.emissions)
      → All (Reported world f.final) es
      → All (λ (r : Report). Sent f r.0 r.1) (reports_of es)
  unfolding reports_of
  reports_of-Sent f [] sub h = tt
  reports_of-Sent f (e ∷ es) sub (h, hs) = (
    (e, sub e (Memᴰ.head refl), refl, refl, h),
    reports_of-Sent f es (λ x m. sub x (Memᴰ.tail m)) hs,
  )

  -- What a run with prerequisites comes to: the error of a schedule that is not accepted, or the
  -- groups that the schedule's run sent.
  abbrev pub Outcome :
      Workers → RangeOrder → List Resource → Result ScheduleError (Option Groups) → Type 0
  Outcome workers range rs out =
      ((e : ScheduleError) × (out ≡ err e) × (build_schedule range rs ≡ err e))
      ⊎ ((schedule : List ScheduledResource) × (f : Finished) × (groups : Groups) × (build_schedule
              range rs
            ≡ ok schedule)
          × (validate_schedule world workers schedule ≡ some f)
          × (out ≡ ok (some groups))
          × Covers (Sent f) rs groups)

  scheduled :
      (workers : Workers) (range : RangeOrder) (rs : List Resource)
      (built : Result ScheduleError (List ScheduledResource))
      → build_schedule range rs ≡ built
      → Outcome workers range rs (validate_with_dependencies world workers range rs)
  unfolding validate_with_dependencies
  scheduled workers range rs (err e) h = inl (e, rw h refl, h)
  scheduled workers range rs (ok schedule) h =
      let s = build_schedule-IsSchedule range rs schedule h in
      let (f, ends, kept, reported) = validate_schedule-Reported world workers rs schedule s in
      inr (
        schedule,
        f,
        map (λ (e : Emission). e.results) f.emissions,
        h,
        ends,
        rw (h, ends) refl,
        record {
          reports = reports_of f.emissions;
          each_once =
              subst (λ l. Perm l rs) (sym (reports_of-resources f.emissions))
                (subst (Perm (resources_of (sources f.emissions))) s.kept
                  (Perm.map (λ (item : ScheduledResource). item.resource) kept));
          sent = reports_of-results f.emissions;
          answered = reports_of-Sent f f.emissions (λ e m. m) reported;
        },
      )

  -- The resources are run as the spec gives them, one for one and in order, with those of a disabled
  -- type marked as skipped. If one of them has prerequisites, the run either reports the error that
  -- building the schedule gave, or it ends and has sent one group of results for each of them, no
  -- more and no less: its check's, or a skip on account of a prerequisite, as the final verdicts of
  -- its prerequisites decide. If none has, it ends and has sent one group for each: its check's.
  pub run_validation_lem :
      (workers : Workers) (range : RangeOrder) (parallel : ParallelOrder)
      (is_value_in_list : String → List String → Bool) (skip_list : List String)
      (given : List Resource)
      → (rans : List Resource) × RunAsAll is_value_in_list skip_list given rans
        × ((Bound rans
              × Outcome workers range rans
                  (run_validation world workers range parallel is_value_in_list skip_list given))
            ⊎ ((¬ Bound rans)
                × ((groups : Groups) × (run_validation world workers range parallel is_value_in_list
                        skip_list given
                      ≡ ok (some groups))
                    × Covers Answered rans groups)))
  unfolding run_validation
  run_validation_lem workers range parallel is_value_in_list skip_list given =
      let rs = apply_disabled_types is_value_in_list skip_list given in
      (
        rs,
        apply_disabled_types-RunAs is_value_in_list skip_list given,
        elim (has_dependencies-Bound rs) [
          | inl (deps, bound) ↦
              inl (bound, rw deps (scheduled workers range rs (build_schedule range rs) refl))
          | inr (bare, unbound) ↦ inr (
            unbound,
            (
              validate_parallel world parallel rs,
              rw bare refl,
              validate_parallel-Covers parallel rs,
            ),
          )
        ],
      )
