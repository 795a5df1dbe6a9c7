-- ===== src/Scheduler/Waves.antt =====
-- dependency_scheduler.go: validateWithDependencies and applyDisabledTypes; validate.go: workerCount.
-- One pass of the loop decides the pending items in order; the items that may run are handed to the
-- workers, whose order is not fixed. All of them are done before the next pass (`wg.Wait`).
pub mod Deciding
pub mod Reasons
pub mod Passing
pub mod Idle
pub mod Living
pub mod Ending
pub mod Agreeing
pub mod Verdicts
pub mod Reporting
use mathlib.Core.List.{Permᴰ}
use syver.Prelude.{
  ℕ, zero, suc, String, concat, str_eq, update, Bool, true, false, ◌&&◌, ◌||◌, not, List, [], ◌∷◌,
  ◌++◌, Option, none, some, Memᴰ, length, any, if◌then◌else◌, ◌==◌, ltb, map,
}
use syver.Resource.{Resource, set_skip}
use syver.Resource.Results.{TestResult, Verdict, success, fail, skip, is_fail}
use syver.Resource.Skips.{Validation, validate_safe, skip_resource_results}
use syver.Scheduler.Build.{ScheduledResource}

-- `status` and `completed` in one: `none` is a reference that has not completed.
abbrev pub Status : Type 0
Status = String → Option Verdict

-- What goes out on the channel: the results of one item.
pub record Emission : Type 0 where
  pub source : ScheduledResource
  pub results : List TestResult

-- `passed`: no result failed.
unfoldable pub passed : List TestResult → Bool
passed results = not (any (λ r. is_fail r.result) results)

unfoldable pub verdict_of : List TestResult → Verdict
unfolding passed
verdict_of results = if passed results then success else fail

-- The world: what a check answers, the reason that a spec gives for a skip, and Go's `%q`.
pub record World : Type 0 where
  pub validation : Resource → Validation
  pub own_skip_reason : Resource → Option String
  pub quote : String → String

-- Whether an item can be decided, and the reason to skip it.
pub data Decision : Type 0 where
  wait : Decision
  skip_for : String → Decision
  run : Decision

-- What a pass over the pending items leaves.
pub record Pass : Type 0 where
  pub status : Status
  pub runnable : List ScheduledResource
  pub next_pending : List ScheduledResource
  pub emitted : List Emission
  pub progressed : Bool

module _ (world : World) where
  abbrev pub reason_for : Verdict → String → String
  reason_for fail dep = concat "dependency " (concat (world.quote dep) " failed")
  reason_for skip dep = concat "dependency " (concat (world.quote dep) " was skipped")
  reason_for _ dep = ""

  -- The loop over `item.deps`, with `ready` and `skipReason`.
  pub scan_deps : Status → List String → Bool → String → Bool × String
  scan_deps status [] ready reason = (ready, reason)
  scan_deps status (dep ∷ deps) ready reason = elim (status dep) [
    | none ↦ scan_deps status deps false reason
    | some v ↦ scan_deps status deps ready (if str_eq reason "" then reason_for v dep else reason)
  ]

  abbrev decision : Bool × String → Decision
  decision (ready, reason) =
      if ready then (if str_eq reason "" then run else skip_for reason) else wait

  unfoldable pub decide : Status → List String → Decision
  unfolding scan_deps
  decide status deps = decision (scan_deps status deps true "")

  unfoldable pub run_item : ScheduledResource → List TestResult
  run_item item =
      validate_safe item.resource (world.own_skip_reason item.resource)
        (world.validation item.resource)

  abbrev pub emit_skip : ScheduledResource → String → Emission
  emit_skip item reason = record {
    source = item;
    results = skip_resource_results item.resource reason;
  }

  -- The loop over `pending`; a skip counts for the items behind it in the same pass.
  unfoldable pub pass : Status → List ScheduledResource → Pass
  pass status [] = record {
    status = status;
    runnable = [];
    next_pending = [];
    emitted = [];
    progressed = false;
  }
  pass status (item ∷ rest) = elim (status item.ref) [
    | some v ↦ pass status rest
    | none ↦ elim (decide status item.deps) [
      | wait ↦
          let later = pass status rest in record later { next_pending = item ∷ later.next_pending }
      | skip_for reason ↦
          let later = pass (update status item.ref (some skip)) rest in
          record later { emitted = emit_skip item reason ∷ later.emitted; progressed = true }
      | run ↦ let later = pass status rest in record later { runnable = item ∷ later.runnable }
    ]
  ]

  -- The workers: each item of the wave is validated, its verdict stored, its results sent.
  unfoldable pub run_wave : Status → List ScheduledResource → Status
  run_wave status [] = status
  run_wave status (item ∷ items) =
      run_wave (update status item.ref (some (verdict_of (run_item item)))) items

  unfoldable pub wave_emissions : List ScheduledResource → List Emission
  wave_emissions [] = []
  wave_emissions (item ∷ items) =
      record { source = item; results = run_item item } ∷ wave_emissions items

  unfoldable pub unsatisfied : List ScheduledResource → List Emission
  unsatisfied [] = []
  unsatisfied (item ∷ items) = emit_skip item "unsatisfied dependency" ∷ unsatisfied items

-- The order in which the workers finish a wave: any arrangement of its items.
pub record Workers : Type 0 where
  pub order : List ScheduledResource → List ScheduledResource
  pub order_perm : (items : List ScheduledResource) → Permᴰ (order items) items

-- What the loop has sent and stored when it ends.
pub record Finished : Type 0 where
  pub emissions : List Emission
  pub final : Status

-- `len(runnable) == 0`
abbrev pub is_nil : List ScheduledResource → Bool
is_nil [] = true
is_nil (item ∷ items) = false

abbrev pub sent_before : List Emission → Option Finished → Option Finished
sent_before es none = none
sent_before es (some f) = some (record f { emissions = es ++ f.emissions })

module _ (world : World) (workers : Workers) where
  -- The loop of `validateWithDependencies`; `none` is the model's own, for a lack of fuel.
  unfoldable pub loop : ℕ → Status → List ScheduledResource → Option Finished
  loop zero status pending = none
  loop (suc fuel) status [] = some (record { emissions = []; final = status })
  loop (suc fuel) status (item ∷ items) =
      let p = pass world status (item ∷ items) in
      let again = sent_before p.emitted (loop fuel p.status p.next_pending) in
      let wave = workers.order p.runnable in
      let after =
        sent_before (p.emitted ++ wave_emissions world wave)
          (loop fuel (run_wave world p.status wave) p.next_pending) in
      elim (is_nil p.runnable) [
        | true ↦ elim p.progressed [
          | true ↦ again
          | false ↦ some (record { emissions = unsatisfied world p.next_pending; final = p.status })
        ]
        | false ↦ after
      ]

  -- `validateWithDependencies`, once the schedule is built.
  unfoldable pub validate_schedule : List ScheduledResource → Option Finished
  validate_schedule schedule = loop (suc (length schedule)) (λ ref. none) schedule

-- `applyDisabledTypes`
module _ (is_value_in_list : String → List String → Bool) where
  unfoldable pub apply_disabled_types : List String → List Resource → List Resource
  apply_disabled_types skip_list [] = []
  apply_disabled_types skip_list (res ∷ rest) =
      (if is_value_in_list res.type_name skip_list || is_value_in_list res.type_key skip_list
        then set_skip res
        else res)
      ∷ apply_disabled_types skip_list rest
