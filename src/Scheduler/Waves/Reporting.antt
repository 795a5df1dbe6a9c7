-- ===== src/Scheduler/Waves/Reporting.antt =====
-- What validateWithDependencies sends and stores for every item of a schedule.
use mathlib.Core.List.{Perm}
use mathlib.Core.List.Perm
use mathlib.Core.Logic.{∥∥₁_elim}
use syver.Prelude.{
  String, ◌≡◌, refl, sym, ap, subst, inl, inr, Bool, true, false, List, [], ◌∷◌, ◌++◌, Option, none,
  some, Memᴰ, All, All-mem, All-of_mem,
}
use syver.Resource.{Resource}
use syver.Resource.Results.{Verdict, success, fail, skip, unknown}
use syver.Resource.Skips.{skip_resource_results}
use syver.Scheduler.Build.{ScheduledResource}
use syver.Scheduler.Build.Sound.{IsSchedule}
use syver.Scheduler.Build.Lookup.{IsSound, IsSchedule-IsSound}
use syver.Scheduler.Waves.{
  Emission, World, Workers, Finished, validate_schedule, decide, reason_for, run_item, verdict_of,
}
use syver.Scheduler.Waves.Deciding.{Completed}
use syver.Scheduler.Waves.Passing.{sources, Skipped}
use syver.Scheduler.Waves.Living.{Decided, Ran}
use syver.Scheduler.Waves.Reasons.{
  NotPassed, PassedDep, FirstNotPassed, DecidedAs, decide-DecidedAs,
}
use syver.Scheduler.Waves.Agreeing.{Memᴰ-sources, validate_schedule-Decided}
use syver.Scheduler.Waves.Verdicts.{
  Succeeded, FirstMissed, Judged, Told, Reported, reason_for-Told, verdict_of-cases,
}

-- A verdict that the loop stores.
abbrev settled : Option Verdict → Bool
settled (some success) = true
settled (some fail) = true
settled (some skip) = true
settled _ = false

settled-Completed : (o : Option Verdict) → settled o ≡ true → (v : Verdict) × (o ≡ some v)
settled-Completed none h = cc
settled-Completed (some v) h = (v, refl)

settled_success :
    (o : Option Verdict)
    → settled o ≡ true
    → ((v : Verdict) → o ≡ some v → ¬ NotPassed v)
    → o ≡ some success
settled_success none h n = cc
settled_success (some success) h n = refl
settled_success (some fail) h n = absurd (n fail refl (inl refl))
settled_success (some skip) h n = absurd (n skip refl (inr refl))
settled_success (some unknown) h n = cc

All-front : (P : String → Type 0) (xs ys : List String) → All P (xs ++ ys) → All P xs
All-front P [] ys h = tt
All-front P (x ∷ xs) ys (h, k) = (h, All-front P xs ys k)

Memᴰ-source : (es : List Emission) (e : Emission) → Memᴰ e es → Memᴰ e.source (sources es)
Memᴰ-source [] e m = elim m [ ]
Memᴰ-source (x ∷ es) e (Memᴰ.head p) = Memᴰ.head (ap (λ (y : Emission). y.source) p)
Memᴰ-source (x ∷ es) e (Memᴰ.tail m) = Memᴰ.tail (Memᴰ-source es e m)

Bool-set : IsSet Bool
Bool-set = hlevel

module _ (world : World) (schedule : List ScheduledResource) (sound : IsSound schedule)
    (f : Finished) (kept : Perm (sources f.emissions) schedule)
    (decided : All (Decided world f.final) f.emissions) where
  Decided-settled : (e : Emission) → Decided world f.final e → settled (f.final e.source.ref) ≡ true
  Decided-settled e (inl s) = rw s.stored refl
  Decided-settled e (inr r) = elim (verdict_of-cases (run_item world e.source)) [
    | inl (v, _) ↦ rw (r.stored, v) refl
    | inr (v, _) ↦ rw (r.stored, v) refl
  ]

  settled_at : (item : ScheduledResource) → Memᴰ item schedule → settled (f.final item.ref) ≡ true
  settled_at item m = ∥∥₁_elim (Perm.subset (Perm.symm kept) item ∣ m ∣₁) (Bool-set _ _) λ sent.
      let (e, m', same) = Memᴰ-sources f.emissions item sent in
      subst (λ (x : ScheduledResource). settled (f.final x.ref) ≡ true) same
        (Decided-settled e (All-mem (Decided world f.final) m' decided))

  settled_deps :
      (e : Emission) → Memᴰ e f.emissions → All (λ d. settled (f.final d) ≡ true) e.source.deps
  settled_deps e m = All-of_mem _ e.source.deps λ d m'.
      ∥∥₁_elim (Perm.subset kept e.source ∣ Memᴰ-source f.emissions e m ∣₁) (Bool-set _ _) λ listed.
        let (other, l, named) = sound.known e.source listed d m' in
        subst (λ r. settled (f.final r) ≡ true) named (settled_at other l)

  deps-Completed :
      (ds : List String) → All (λ d. settled (f.final d) ≡ true) ds → All (Completed f.final) ds
  deps-Completed [] h = tt
  deps-Completed (d ∷ ds) (h, k) = (settled-Completed (f.final d) h, deps-Completed ds k)

  deps-Succeeded :
      (ds : List String)
      → All (λ d. settled (f.final d) ≡ true) ds
      → All (PassedDep f.final) ds
      → All (Succeeded f.final) ds
  deps-Succeeded [] h n = tt
  deps-Succeeded (d ∷ ds) (h, hs) (n, ns) =
      (settled_success (f.final d) h n, deps-Succeeded ds hs ns)

  first_missed :
      (deps : List String) (dep : String) (v : Verdict)
      → All (λ d. settled (f.final d) ≡ true) deps
      → FirstNotPassed f.final deps dep v
      → FirstMissed f.final deps dep v
  first_missed deps dep v h n = record {
    before = n.before;
    after = n.after;
    split = n.split;
    succeeded_before =
        deps-Succeeded n.before
          (All-front _ n.before (dep ∷ n.after)
            (subst (All (λ d. settled (f.final d) ≡ true)) n.split h))
          n.passed_before;
    verdict = n.verdict;
  }

  Ran-Reported :
      (e : Emission)
      → Memᴰ e f.emissions
      → Ran world f.final e
      → DecidedAs world f.final e.source.deps (decide world f.final e.source.deps)
      → Reported world f.final e
  unfolding run_item
  Ran-Reported e m r (inl (all, _)) = inl (record {
    prerequisites = deps-Succeeded e.source.deps (settled_deps e m) all;
    reported = r.reported;
    judged =
        subst (λ o. Judged e.results o) (sym r.stored)
          (subst (λ l. Judged l (some (verdict_of (run_item world e.source)))) (sym r.reported)
            (verdict_of-cases (run_item world e.source)));
  })
  Ran-Reported e m r (inr (dep, v, n, d)) = absurd (cc (d, r.decided))

  Skipped-Reported :
      (e : Emission)
      → Memᴰ e f.emissions
      → Skipped world f.final e
      → DecidedAs world f.final e.source.deps (decide world f.final e.source.deps)
      → Reported world f.final e
  unfolding skip_resource_results
  Skipped-Reported e m s (inl (all, d)) = absurd (cc (d, s.decided))
  Skipped-Reported e m s (inr (dep, v, n, d)) =
      let same : s.reason ≡ reason_for world v dep = cc (d, s.decided) in
      inr (record {
        dep = dep;
        v = v;
        reason = s.reason;
        missed = first_missed e.source.deps dep v (settled_deps e m) n;
        told =
            subst (λ r. Told world v dep r) (sym same) (reason_for-Told world v dep n.not_passed);
        reported = (_, s.reported, refl, refl, refl, refl);
        stored = s.stored;
      })

  Decided-Reported :
      (e : Emission) → Memᴰ e f.emissions → Decided world f.final e → Reported world f.final e
  Decided-Reported e m d =
      let decision =
        decide-DecidedAs world f.final e.source.deps
          (deps-Completed e.source.deps (settled_deps e m)) in
      elim d [ inl s ↦ Skipped-Reported e m s decision | inr r ↦ Ran-Reported e m r decision ]

-- For an accepted schedule the loop ends; it sends the results of each item exactly once; and what is
-- sent and stored for an item follows from the final verdicts of its prerequisites. If all of them
-- succeeded, the check of the item is run and reported, and stored as failed if one of its results
-- failed and as succeeded otherwise. If not, the first in the order written that did not succeed
-- failed or was skipped, the item is stored as skipped, and the one result that is sent for it is a
-- skip with a reason that names this prerequisite and tells which of the two it was.
pub validate_schedule-Reported :
    (world : World) (workers : Workers) (resources : List Resource)
    (schedule : List ScheduledResource)
    → IsSchedule resources schedule
    → (f : Finished) × (validate_schedule world workers schedule ≡ some f)
      × Perm (sources f.emissions) schedule
      × All (Reported world f.final) f.emissions
validate_schedule-Reported world workers resources schedule s =
    let sound = IsSchedule-IsSound resources schedule s in
    let (f, e, kept, decided) = validate_schedule-Decided world workers resources schedule s in
    (
      f,
      e,
      kept,
      All-of_mem _ f.emissions λ x m.
          Decided-Reported world schedule sound f kept decided x m
            (All-mem (Decided world f.final) m decided),
    )
