-- ===== src/Scheduler/Waves/Ending.antt =====
-- The loop ends, sends each pending item's results once, and decides each item by the verdicts that
-- its prerequisites end with.
use mathlib.Core.List.{Perm, map-append, append_assoc}
use mathlib.Core.List.Permᴰ as PermD
use mathlib.Core.List.Perm
use syver.Prelude.{
  ℕ, zero, suc, ◌<◌, ◌≡◌, refl, ◌∙◌, ap, subst, ◌≢◌, inl, inr, true, List, [], ◌∷◌, ◌++◌, length,
  none, some, Memᴰ, All, All-mem, All-of_mem, All-append, Bool-cases, arith,
}
use syver.Scheduler.Build.{ScheduledResource}
use syver.Scheduler.Build.Lookup.{IsSound}
use syver.Scheduler.Waves.{
  Status, World, Workers, Finished, is_nil, sent_before, loop, run, decide, Pass, pass, run_wave,
  wave_emissions, run_item, verdict_of,
}
use syver.Scheduler.Waves.Deciding.{Later, decide-Later}
use syver.Scheduler.Waves.Passing.{sources, Passed, pass-Passed}
use syver.Scheduler.Waves.Idle.{
  Memᴰ-Permᴰ, pass-length, pass-progressed, pass_idle, run_wave_at, wave-sources,
}
use syver.Scheduler.Waves.Living.{
  List-cases, not_stuck, Decided, Decided-Later, Skipped-Decided, Live,
}

module _ (world : World) where
  module _ (workers : Workers) (schedule : List ScheduledResource) (sound : IsSound schedule) where
    pub record Ended (status : Status) (pending : List ScheduledResource) (f : Finished)
        : Type 0 where
      pub kept : Perm (sources f.emissions) pending
      pub later : Later status f.final
      pub decided : All (Decided world f.final) f.emissions

    Ended-nil : (status : Status) → Ended status [] (record { emissions = []; final = status })
    Ended-nil status = record { kept = Perm.refl []; later = λ r v e. e; decided = tt }

    module _ (status : Status) (pending : List ScheduledResource) (p : Pass)
        (live : Live world workers schedule sound status pending)
        (h : Passed world status pending p) where
      skips-Decided : All (Decided world p.status) p.emitted
      skips-Decided = Skipped-Decided world p.status p.emitted h.skipped

      -- After a pass that found nothing to run.
      Live-again : p.runnable ≡ [] → Live world workers schedule sound p.status p.next_pending
      Live-again e = record {
        covered = λ x m. elim (live.covered x m) [
          | inl (v, done) ↦ inl (v, h.later x.ref v done)
          | inr waiting ↦ elim (h.split x waiting) [
            | inl done ↦ inl done
            | inr (inl r) ↦ elim (subst (λ l. Memᴰ x l) e r) [ ]
            | inr (inr w) ↦ inr w
          ]
        ];
        listed = λ x m. live.listed x (h.waiting_sub x m);
        fresh = h.waiting_fresh;
        distinct = h.waiting_distinct;
      }

      Ended-again :
          {f : Finished}
          → p.runnable ≡ []
          → Ended p.status p.next_pending f
          → Ended status pending (record f { emissions = p.emitted ++ f.emissions })
      Ended-again {f} e g = record {
        kept = rw map-append (
            Perm.trans (Perm.append_left (sources p.emitted) g.kept)
              (subst (λ l. Perm (sources p.emitted ++ (l ++ p.next_pending)) pending) e h.kept));
        later = λ r v k. g.later r v (h.later r v k);
        decided =
            All-append (Decided world f.final) p.emitted f.emissions
              (All-of_mem (Decided world f.final) p.emitted λ x m.
                Decided-Later world x g.later (All-mem (Decided world p.status) m skips-Decided))
              g.decided;
      }

      abbrev wave : List ScheduledResource
      wave = workers.order p.runnable

      in_runnable : (x : ScheduledResource) → Memᴰ x wave → Memᴰ x p.runnable
      in_runnable x m = Memᴰ-Permᴰ x (workers.order_perm p.runnable) m

      in_wave : (x : ScheduledResource) → Memᴰ x p.runnable → Memᴰ x wave
      in_wave x m = Memᴰ-Permᴰ x (PermD.symm (workers.order_perm p.runnable)) m

      abbrev after_wave : Status
      after_wave = run_wave world p.status wave

      not_run_yet : (x : ScheduledResource) → Memᴰ x wave → p.status x.ref ≡ none
      not_run_yet x m =
          All-mem (λ (i : ScheduledResource). p.status i.ref ≡ none) (in_runnable x m)
            h.runnable_fresh

      wave-Later : Later p.status after_wave
      wave-Later r v e = elim (run_wave_at world p.status wave r) [
        | inl (j, m, same, _) ↦ cc (not_run_yet j m, ap p.status same)
        | inr (_, kept) ↦ kept ∙ e
      ]

      stored :
          (x : ScheduledResource)
          → Memᴰ x wave
          → after_wave x.ref ≡ some (verdict_of (run_item world x))
      stored x m = elim (run_wave_at world p.status wave x.ref) [
        | inl (j, m', same, v) ↦
            let one : j ≡ x =
              sound.unique j x (live.listed j (h.runnable_sub j (in_runnable j m')))
                (live.listed x (h.runnable_sub x (in_runnable x m))) same in
            v ∙ ap (λ i. some (verdict_of (run_item world i))) one
        | inr (others, _) ↦
            absurd (All-mem (λ (j : ScheduledResource). j.ref ≢ x.ref) m others refl)
      ]

      wave_fresh : (y : ScheduledResource) → Memᴰ y p.next_pending → after_wave y.ref ≡ none
      wave_fresh y n = elim (run_wave_at world p.status wave y.ref) [
        | inl (j, m, same, _) ↦ absurd (h.apart j y (in_runnable j m) n same)
        | inr (_, kept) ↦
            kept ∙ All-mem (λ (i : ScheduledResource). p.status i.ref ≡ none) n h.waiting_fresh
      ]

      Live-after : Live world workers schedule sound after_wave p.next_pending
      Live-after = record {
        covered = λ x m. elim (live.covered x m) [
          | inl (v, done) ↦ inl (v, wave-Later x.ref v (h.later x.ref v done))
          | inr waiting ↦ elim (h.split x waiting) [
            | inl (v, done) ↦ inl (v, wave-Later x.ref v done)
            | inr (inl r) ↦ inl (_, stored x (in_wave x r))
            | inr (inr w) ↦ inr w
          ]
        ];
        listed = λ x m. live.listed x (h.waiting_sub x m);
        fresh = All-of_mem (λ (i : ScheduledResource). after_wave i.ref ≡ none) _ wave_fresh;
        distinct = h.waiting_distinct;
      }

      wave-Decided :
          (xs : List ScheduledResource)
          → ((x : ScheduledResource) → Memᴰ x xs → Memᴰ x wave)
          → All (Decided world after_wave) (wave_emissions world xs)
      unfolding wave_emissions
      wave-Decided [] sub = tt
      wave-Decided (x ∷ xs) sub =
          let m = sub x (Memᴰ.head refl) in
          (
            inr (record {
              decided =
                  decide-Later world p.status after_wave x.deps wave-Later (λ w. cc w)
                    (All-mem (λ (i : ScheduledResource). decide world p.status i.deps ≡ run)
                      (in_runnable x m) h.ready);
              reported = refl;
              stored = stored x m;
            }),
            wave-Decided xs (λ y n. sub y (Memᴰ.tail n)),
          )

      Ended-after :
          {f : Finished}
          → Ended after_wave p.next_pending f
          → Ended status pending
              (record f { emissions = (p.emitted ++ wave_emissions world wave) ++ f.emissions })
      Ended-after {f} g = record {
        kept =
            simp (map-append, append_assoc, wave-sources world wave)
              (Perm.trans
                (Perm.append_left (sources p.emitted)
                  (Perm.append ∣ workers.order_perm p.runnable ∣₁ g.kept))
                h.kept);
        later = λ r v k. g.later r v (wave-Later r v (h.later r v k));
        decided =
            All-append (Decided world f.final) (p.emitted ++ wave_emissions world wave) f.emissions
              (All-append (Decided world f.final) p.emitted (wave_emissions world wave)
                (All-of_mem (Decided world f.final) p.emitted λ x m.
                  Decided-Later world x (λ r v k. g.later r v (wave-Later r v k))
                    (All-mem (Decided world p.status) m skips-Decided))
                (All-of_mem (Decided world f.final) (wave_emissions world wave) λ x m.
                  Decided-Later world x g.later
                    (All-mem (Decided world after_wave) m (wave-Decided wave (λ y n. n)))))
              g.decided;
      }

    module _ (fuel : ℕ) (status : Status) (item : ScheduledResource)
        (items : List ScheduledResource) where
      loop-skips :
          (pass world status (item ∷ items)).runnable ≡ []
          → (pass world status (item ∷ items)).progressed ≡ true
          → loop world workers (suc fuel) status (item ∷ items)
            ≡ sent_before (pass world status (item ∷ items)).emitted (
                loop world workers fuel
                  (pass world status (item ∷ items)).status
                  (pass world status (item ∷ items)).next_pending)
      unfolding loop
      loop-skips none_ran went_on = rw (ap is_nil none_ran, went_on, loop) refl

      loop-runs :
          {first : ScheduledResource} {others : List ScheduledResource}
          → (pass world status (item ∷ items)).runnable ≡ first ∷ others
          → loop world workers (suc fuel) status (item ∷ items)
            ≡ sent_before
                ((pass world status (item ∷ items)).emitted
                  ++ wave_emissions world
                      (workers.order (pass world status (item ∷ items)).runnable))
                (loop world workers fuel
                  (run_wave world
                    (pass world status (item ∷ items)).status
                    (workers.order (pass world status (item ∷ items)).runnable))
                  (pass world status (item ∷ items)).next_pending)
      unfolding loop
      loop-runs ran = rw (ap is_nil ran, loop) refl

    pub loop-Ended :
        (fuel : ℕ) (status : Status) (pending : List ScheduledResource)
        → length pending < fuel
        → Live world workers schedule sound status pending
        → (f : Finished) × (loop world workers fuel status pending ≡ some f)
          × Ended status pending f
    unfolding loop
    loop-Ended zero status pending l live = absurd (omega arith)
    loop-Ended (suc fuel) status [] l live =
        (record { emissions = []; final = status }, refl, Ended-nil status)
    loop-Ended (suc fuel) status (item ∷ items) l live =
        let pending = item ∷ items in
        let p = pass world status pending in
        let h = pass-Passed world status pending live.fresh live.distinct in
        let counted = pass-length world status pending in
        elim (List-cases p.runnable) [
          | inl none_ran ↦ elim (Bool-cases p.progressed) [
            | inl went_on ↦
                let (f, e, g) =
                  loop-Ended fuel p.status p.next_pending
                    (omega (arith, counted, pass-progressed world status pending went_on, l))
                    (Live-again status pending p live h none_ran) in
                (
                  record f { emissions = p.emitted ++ f.emissions },
                  loop-skips fuel status item items none_ran went_on ∙ ap (sent_before p.emitted) e,
                  Ended-again status pending p live h none_ran g,
                )
            | inr idle ↦ absurd (
                not_stuck world workers schedule sound status pending live
                  (pass_idle world status pending live.fresh idle none_ran)
                  (sound.grounded item (live.listed item (Memᴰ.head refl))) item (Memᴰ.head refl)
                  refl)
          ]
          | inr (first, others, ran) ↦
              let wave = workers.order p.runnable in
              let (f, e, g) =
                loop-Ended fuel (run_wave world p.status wave) p.next_pending
                  (omega (arith, counted, ap length ran, l)) (Live-after status pending p live h) in
              (
                record f { emissions = (p.emitted ++ wave_emissions world wave) ++ f.emissions },
                loop-runs fuel status item items ran
                    ∙ ap (sent_before (p.emitted ++ wave_emissions world wave)) e,
                Ended-after status pending p live h g,
              )
        ]
