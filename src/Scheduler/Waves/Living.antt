-- ===== src/Scheduler/Waves/Living.antt =====
-- The items that are pending or have completed: not all that are pending can wait.
use mathlib.Core.WellFounded.{Acc}
use syver.Prelude.{
  String, ◌≡◌, refl, sym, subst, ◌⊎◌, inl, inr, List, [], ◌∷◌, some, Memᴰ, All, All-mem, All-of_mem,
}
use syver.Scheduler.Build.{ScheduledResource, refs}
use syver.Scheduler.Build.Lookup.{IsSound}
use syver.Scheduler.Build.Graph.{dependencies}
use syver.Scheduler.Build.Known.{Distinct}
use syver.Scheduler.Cycles.Sound.{Grounded}
use syver.Scheduler.Waves.{
  Status, Emission, World, Workers, wait, run, decide, run_item, verdict_of,
}
use syver.Scheduler.Waves.Deciding.{Later, Completed, decide-ne-wait, decide-Later}
use syver.Scheduler.Waves.Passing.{Fresh, Skipped, Skipped-Later}

pub List-cases :
    (xs : List ScheduledResource)
    → (xs ≡ []) ⊎ ((x : ScheduledResource) × (rest : List ScheduledResource) × (xs ≡ x ∷ rest))
List-cases [] = inl refl
List-cases (x ∷ xs) = inr (x, xs, refl)

module _ (world : World) where
  -- The emission is the report of a check that was run, all prerequisites having passed.
  pub record Ran (status : Status) (e : Emission) : Type 0 where
    pub decided : decide world status e.source.deps ≡ run
    pub reported : e.results ≡ run_item world e.source
    pub stored : status e.source.ref ≡ some (verdict_of (run_item world e.source))

  abbrev pub Decided : Status → Emission → Type 0
  Decided status e = Skipped world status e ⊎ Ran status e

  pub Decided-Later :
      {before after : Status} (e : Emission)
      → Later before after
      → Decided before e
      → Decided after e
  Decided-Later e l (inl s) = inl (Skipped-Later world l s)
  Decided-Later e l (inr r) = inr (record {
    decided = decide-Later world _ _ _ l (λ h. cc h) r.decided;
    reported = r.reported;
    stored = l _ _ r.stored;
  })

  pub Skipped-Decided :
      (status : Status) (es : List Emission)
      → All (Skipped world status) es
      → All (Decided status) es
  Skipped-Decided status [] h = tt
  Skipped-Decided status (e ∷ es) (s, h) = (inl s, Skipped-Decided status es h)

  module _ (workers : Workers) (schedule : List ScheduledResource) (sound : IsSound schedule) where
    -- Every item of the schedule has completed or is pending, and every pending item is one.
    pub record Live (status : Status) (pending : List ScheduledResource) : Type 0 where
      pub covered :
          (x : ScheduledResource) → Memᴰ x schedule → Completed status x.ref ⊎ Memᴰ x pending
      pub listed : (x : ScheduledResource) → Memᴰ x pending → Memᴰ x schedule
      pub fresh : Fresh status pending
      pub distinct : Distinct (refs pending)

    module _ (status : Status) (pending : List ScheduledResource) (live : Live status pending)
        (waits : All (λ item. decide world status item.deps ≡ wait) pending) where
      prerequisites :
          (item : ScheduledResource)
          → Memᴰ item pending
          → ((d : String)
              → Memᴰ d item.deps
              → (x : ScheduledResource) → Memᴰ x pending
              → x.ref ≡ d
              → ⊥)
          → All (Completed status) item.deps
      prerequisites item m none_pending = All-of_mem (Completed status) item.deps λ d m'.
          let (other, listed, e) = sound.known item (live.listed item m) d m' in
          elim (live.covered other listed) [
            | inl done ↦ subst (Completed status) e done
            | inr waiting ↦ absurd (none_pending d m' other waiting e)
          ]

      -- Not every pending item waits: below each there would be another.
      pub not_stuck :
          {r : String}
          → Grounded (dependencies schedule) r
          → (item : ScheduledResource) → Memᴰ item pending
          → item.ref ≡ r
          → ⊥
      not_stuck (Acc.intro r below) item m e =
          let same : dependencies schedule r ≡ item.deps =
            rw e at (sound.deps_at item (live.listed item m)) in
          decide-ne-wait world status item.deps
            (prerequisites item m λ d m' other waiting named.
              not_stuck (below d (subst (λ l. Memᴰ d l) (sym same) m')) other waiting named)
            (All-mem (λ (i : ScheduledResource). decide world status i.deps ≡ wait) m waits)
