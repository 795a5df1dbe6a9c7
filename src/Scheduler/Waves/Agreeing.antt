-- ===== src/Scheduler/Waves/Agreeing.antt =====
-- The promise of validateWithDependencies as a whole, and that it does not depend on the workers.
use mathlib.Core.List.{Perm}
use mathlib.Core.List.Perm
use mathlib.Core.Logic.{∥∥₁_elim}
use mathlib.Core.WellFounded.{Acc}
use syver.Prelude.{
  suc, String, ◌≡◌, refl, sym, ◌∙◌, ap, subst, inl, inr, List, [], ◌∷◌, length, Option, none, some,
  Memᴰ, All, All-mem, All-of_mem, arith,
}
use syver.Resource.{Resource}
use syver.Resource.Results.{Verdict, skip, TestResult}
use syver.Resource.Skips.{skip_resource_results}
use syver.Scheduler.Cycles.Sound.{Grounded}
use syver.Scheduler.Build.{ScheduledResource}
use syver.Scheduler.Build.Graph.{dependencies}
use syver.Scheduler.Build.Sound.{IsSchedule}
use syver.Scheduler.Waves.{
  Status, Emission, World, Workers, Finished, validate_schedule, decide, Decision, wait, run,
  skip_for, run_item, verdict_of,
}
use syver.Scheduler.Waves.Deciding.{decide_congr}
use syver.Scheduler.Waves.Passing.{sources}
use syver.Scheduler.Build.Lookup.{IsSound, IsSchedule-IsSound}
use syver.Scheduler.Waves.Living.{Decided}
use syver.Scheduler.Waves.Ending.{loop-Ended}

-- The loop ends, and what it sent stands by the decisions that the final status gives.
pub validate_schedule-Decided :
    (world : World) (workers : Workers) (resources : List Resource)
    (schedule : List ScheduledResource)
    → IsSchedule resources schedule
    → (f : Finished) × (validate_schedule world workers schedule ≡ some f)
      × Perm (sources f.emissions) schedule
      × All (Decided world f.final) f.emissions
unfolding validate_schedule
validate_schedule-Decided world workers resources schedule s =
    let sound = IsSchedule-IsSound resources schedule s in
    let (f, e, g) =
      loop-Ended world workers schedule sound (suc (length schedule)) (λ ref. none) schedule
        (omega arith)
        (record {
          covered = λ x m. inr m;
          listed = λ x m. m;
          fresh = All-of_mem _ schedule (λ x m. refl);
          distinct = s.distinct;
        }) in
    (f, e, g.kept, g.decided)

pub Memᴰ-sources :
    (es : List Emission) (item : ScheduledResource)
    → Memᴰ item (sources es)
    → (e : Emission) × Memᴰ e es × (e.source ≡ item)
Memᴰ-sources [] item m = elim m [ ]
Memᴰ-sources (e ∷ es) item (Memᴰ.head p) = (e, Memᴰ.head refl, sym p)
Memᴰ-sources (e ∷ es) item (Memᴰ.tail m) =
    let (x, m', p) = Memᴰ-sources es item m in (x, Memᴰ.tail m', p)

Status-set : IsSet (Option Verdict)
Status-set = hlevel

module _ (world : World) where
  -- What a decision stores and sends for an item.
  abbrev stored_for : ScheduledResource → Decision → Option Verdict
  stored_for item wait = none
  stored_for item run = some (verdict_of (run_item world item))
  stored_for item (skip_for reason) = some skip

  abbrev results_for : ScheduledResource → Decision → List TestResult
  results_for item wait = []
  results_for item run = run_item world item
  results_for item (skip_for reason) = skip_resource_results item.resource reason

  Decided-for :
      (status : Status) (e : Emission)
      → Decided world status e
      → (status e.source.ref ≡ stored_for e.source (decide world status e.source.deps))
        × (e.results ≡ results_for e.source (decide world status e.source.deps))
  Decided-for status e (inl s) = (
    s.stored ∙ ap (stored_for e.source) (sym s.decided),
    s.reported ∙ ap (results_for e.source) (sym s.decided),
  )
  Decided-for status e (inr r) = (
    r.stored ∙ ap (stored_for e.source) (sym r.decided),
    r.reported ∙ ap (results_for e.source) (sym r.decided),
  )

  module _ (schedule : List ScheduledResource) (sound : IsSound schedule) where
    module _ (f : Finished) (kept : Perm (sources f.emissions) schedule)
        (decided : All (Decided world f.final) f.emissions) where
      stored_at :
          (item : ScheduledResource)
          → Memᴰ item schedule
          → f.final item.ref ≡ stored_for item (decide world f.final item.deps)
      stored_at item m =
          ∥∥₁_elim (Perm.subset (Perm.symm kept) item ∣ m ∣₁) (Status-set _ _) λ sent.
            let (e, m', same) = Memᴰ-sources f.emissions item sent in
            let (at_ref, _) = Decided-for f.final e (All-mem (Decided world f.final) m' decided) in
            subst
              (λ (x : ScheduledResource).
                f.final x.ref ≡ stored_for x (decide world f.final x.deps))
              same at_ref

    module _ (f g : Finished) (kept_f : Perm (sources f.emissions) schedule)
        (kept_g : Perm (sources g.emissions) schedule)
        (decided_f : All (Decided world f.final) f.emissions)
        (decided_g : All (Decided world g.final) g.emissions) where
      same_decision :
          (item : ScheduledResource)
          → Memᴰ item schedule
          → ((d : String)
              → Memᴰ d item.deps
              → (x : ScheduledResource) → Memᴰ x schedule
              → x.ref ≡ d
              → f.final x.ref ≡ g.final x.ref)
          → decide world f.final item.deps ≡ decide world g.final item.deps
      same_decision item m ih = decide_congr world f.final g.final item.deps (
          All-of_mem (λ d. f.final d ≡ g.final d) item.deps
            λ d m'.
              let (x, listed, named) = sound.known item m d m' in
              subst (λ r. f.final r ≡ g.final r) named (ih d m' x listed named))

      same_final :
          {r : String}
          → Grounded (dependencies schedule) r
          → (item : ScheduledResource) → Memᴰ item schedule
          → item.ref ≡ r
          → f.final item.ref ≡ g.final item.ref
      same_final (Acc.intro r below) item m e =
          let same : dependencies schedule r ≡ item.deps = rw e at (sound.deps_at item m) in
          stored_at f kept_f decided_f item m
          ∙ ap (stored_for item) (
              same_decision item m λ d m' x listed named.
                same_final (below d (subst (λ l. Memᴰ d l) (sym same) m')) x listed named)
          ∙ sym (stored_at g kept_g decided_g item m)

      same_verdict :
          (item : ScheduledResource) → Memᴰ item schedule → f.final item.ref ≡ g.final item.ref
      same_verdict item m = same_final (sound.grounded item m) item m refl

      same_results :
          (e e' : Emission)
          → Memᴰ e f.emissions
          → Memᴰ e' g.emissions
          → e.source ≡ e'.source
          → Memᴰ e.source schedule
          → e.results ≡ e'.results
      same_results e e' m m' same listed =
          let (_, here) = Decided-for f.final e (All-mem (Decided world f.final) m decided_f) in
          let (_, there) = Decided-for g.final e' (All-mem (Decided world g.final) m' decided_g) in
          here
          ∙ ap (results_for e.source)
              (same_decision e.source listed (λ d n x k named. same_verdict x k))
          ∙ ap (λ x. results_for x (decide world g.final x.deps)) same
          ∙ sym there

-- The verdict stored for each item and the results sent for it are the same in every run, in
-- whatever order the workers finish.
pub validate_schedule-deterministic :
    (world : World) (some_workers other_workers : Workers) (resources : List Resource)
    (schedule : List ScheduledResource) (f g : Finished)
    → IsSchedule resources schedule
    → validate_schedule world some_workers schedule ≡ some f
    → validate_schedule world other_workers schedule ≡ some g
    → ((item : ScheduledResource) → Memᴰ item schedule → f.final item.ref ≡ g.final item.ref)
      × ((e e' : Emission)
          → Memᴰ e f.emissions
          → Memᴰ e' g.emissions
          → e.source ≡ e'.source
          → Memᴰ e.source schedule
          → e.results ≡ e'.results)
validate_schedule-deterministic world ws ws' resources schedule f g s p q =
    let sound = IsSchedule-IsSound resources schedule s in
    let (f', p', kept_f, decided_f) = validate_schedule-Decided world ws resources schedule s in
    let (g', q', kept_g, decided_g) = validate_schedule-Decided world ws' resources schedule s in
    let same_f : f' ≡ f = cc in
    let same_g : g' ≡ g = cc in
    let kf = subst (λ (x : Finished). Perm (sources x.emissions) schedule) same_f kept_f in
    let kg = subst (λ (x : Finished). Perm (sources x.emissions) schedule) same_g kept_g in
    let df = subst (λ (x : Finished). All (Decided world x.final) x.emissions) same_f decided_f in
    let dg = subst (λ (x : Finished). All (Decided world x.final) x.emissions) same_g decided_g in
    (
      same_verdict world schedule sound f g kf kg df dg,
      same_results world schedule sound f g kf kg df dg,
    )
