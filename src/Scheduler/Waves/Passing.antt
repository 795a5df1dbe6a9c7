-- ===== src/Scheduler/Waves/Passing.antt =====
-- One pass over the pending items.
use mathlib.Core.List.{Perm, perm_middle}
use mathlib.Core.List.Perm
use mathlib.Core.List.Memᴰ as MemD
use syver.Prelude.{
  String, ◌≡◌, refl, sym, ap, ◌∙◌, ◌≢◌, ◌⊎◌, inl, inr, true, List, [], ◌∷◌, ◌++◌, map, none, some,
  Memᴰ, All, All-mem, update, update_self, update_ne,
}
use syver.Resource.Results.{Verdict, skip}
use syver.Resource.Skips.{skip_resource_results}
use syver.Scheduler.Build.{ScheduledResource, refs}
use syver.Scheduler.Build.Known.{Distinct}
use syver.Scheduler.Waves.{
  Status, Emission, World, Decision, wait, skip_for, run, decide, Pass, pass, emit_skip,
}
use syver.Scheduler.Waves.Deciding.{Later, Completed, Later-update, decide-Later}

abbrev pub sources : List Emission → List ScheduledResource
sources es = map (λ (e : Emission). e.source) es

abbrev pub Fresh : Status → List ScheduledResource → Type 0
Fresh status items = All (λ item. status item.ref ≡ none) items

pub Decision-cases :
    (k : Decision) → (k ≡ wait) ⊎ ((k ≡ run) ⊎ ((reason : String) × (k ≡ skip_for reason)))
Decision-cases wait = inl refl
Decision-cases run = inr (inl refl)
Decision-cases (skip_for reason) = inr (inr (reason, refl))

refs-All :
    (P : String → Type 0) (xs : List ScheduledResource)
    → All P (refs xs)
    → All (λ item. P item.ref) xs
refs-All P [] h = tt
refs-All P (x ∷ xs) h = (h.0, refs-All P xs h.1)

refs_sub :
    (P : String → Type 0) (xs ys : List ScheduledResource)
    → ((x : ScheduledResource) → Memᴰ x xs → Memᴰ x ys)
    → All P (refs ys)
    → All P (refs xs)
refs_sub P [] ys h k = tt
refs_sub P (x ∷ xs) ys h k = (
  All-mem (λ (i : ScheduledResource). P i.ref) (h x (Memᴰ.head refl)) (refs-All P ys k),
  refs_sub P xs ys (λ y m. h y (Memᴰ.tail m)) k,
)

module _ (world : World) where
  -- The emission is the report of a skip, for the reason that the status gives.
  pub record Skipped (status : Status) (e : Emission) : Type 0 where
    pub reason : String
    pub decided : decide world status e.source.deps ≡ skip_for reason
    pub reported : e.results ≡ skip_resource_results e.source.resource reason
    pub stored : status e.source.ref ≡ some skip

  pub Skipped-Later :
      {before after : Status} {e : Emission}
      → Later before after
      → Skipped before e
      → Skipped after e
  Skipped-Later l s = record {
    reason = s.reason;
    decided = decide-Later world _ _ _ l (λ h. cc h) s.decided;
    reported = s.reported;
    stored = l _ _ s.stored;
  }

  -- What a pass over fresh items, each under its own reference, does.
  pub record Passed (status : Status) (pending : List ScheduledResource) (p : Pass) : Type 0 where
    pub kept : Perm (sources p.emitted ++ (p.runnable ++ p.next_pending)) pending
    pub later : Later status p.status
    pub skipped : All (Skipped p.status) p.emitted
    pub ready : All (λ item. decide world p.status item.deps ≡ run) p.runnable
    pub outside : (r : String) → All (λ x. r ≢ x) (refs pending) → p.status r ≡ status r
    pub runnable_fresh : Fresh p.status p.runnable
    pub waiting_fresh : Fresh p.status p.next_pending
    pub split :
        (x : ScheduledResource)
        → Memᴰ x pending
        → Completed p.status x.ref ⊎ (Memᴰ x p.runnable ⊎ Memᴰ x p.next_pending)
    pub waiting_distinct : Distinct (refs p.next_pending)
    pub waiting_sub : (x : ScheduledResource) → Memᴰ x p.next_pending → Memᴰ x pending
    pub runnable_sub : (x : ScheduledResource) → Memᴰ x p.runnable → Memᴰ x pending
    pub apart :
        (x y : ScheduledResource) → Memᴰ x p.runnable → Memᴰ y p.next_pending → x.ref ≢ y.ref

  Fresh-update :
      (status : Status) (ref : String) (v : Verdict) (items : List ScheduledResource)
      → All (λ x. ref ≢ x) (refs items)
      → Fresh status items
      → Fresh (update status ref (some v)) items
  Fresh-update status ref v [] d h = tt
  Fresh-update status ref v (item ∷ items) (ne, d) (f, h) =
      (update_ne status ref item.ref (some v) ne ∙ f, Fresh-update status ref v items d h)

  module _ (status : Status) (item : ScheduledResource) (rest : List ScheduledResource) (p : Pass)
      (fresh : status item.ref ≡ none) (own : All (λ x. item.ref ≢ x) (refs rest)) where
    other : (x : ScheduledResource) → Memᴰ x rest → item.ref ≢ x.ref
    other x m = All-mem (λ (i : ScheduledResource). item.ref ≢ i.ref) m (refs-All _ rest own)

    Passed-wait :
        Passed status rest p
        → Passed status (item ∷ rest) (record p { next_pending = item ∷ p.next_pending })
    Passed-wait h = record {
      kept =
          Perm.trans (Perm.append_left (sources p.emitted) (perm_middle p.runnable p.next_pending))
            (Perm.trans (perm_middle (sources p.emitted) _) (Perm.cons item h.kept));
      later = h.later;
      skipped = h.skipped;
      ready = h.ready;
      outside = λ r others. h.outside r others.1;
      runnable_fresh = h.runnable_fresh;
      waiting_fresh = (h.outside item.ref own ∙ fresh, h.waiting_fresh);
      split = λ x m. elim (MemD.cases_cons m) [
        | inl e ↦ inr (inr (Memᴰ.head e))
        | inr m' ↦ elim (h.split x m') [
          | inl done ↦ inl done
          | inr (inl r) ↦ inr (inl r)
          | inr (inr w) ↦ inr (inr (Memᴰ.tail w))
        ]
      ];
      waiting_distinct =
          (refs_sub (λ x. item.ref ≢ x) _ rest h.waiting_sub own, h.waiting_distinct);
      waiting_sub = λ x m. elim (MemD.cases_cons m) [
        | inl e ↦ Memᴰ.head e
        | inr m' ↦ Memᴰ.tail (h.waiting_sub x m')
      ];
      runnable_sub = λ x m. Memᴰ.tail (h.runnable_sub x m);
      apart = λ x y m n. elim (MemD.cases_cons n) [
        | inl e ↦ λ same.
            other x (h.runnable_sub x m) (sym (same ∙ ap (λ (i : ScheduledResource). i.ref) e))
        | inr n' ↦ h.apart x y m n'
      ];
    }

    Passed-run :
        decide world status item.deps ≡ run
        → Passed status rest p
        → Passed status (item ∷ rest) (record p { runnable = item ∷ p.runnable })
    Passed-run e h = record {
      kept = Perm.trans (perm_middle (sources p.emitted) _) (Perm.cons item h.kept);
      later = h.later;
      skipped = h.skipped;
      ready = (decide-Later world _ _ _ h.later (λ w. cc w) e, h.ready);
      outside = λ r others. h.outside r others.1;
      runnable_fresh = (h.outside item.ref own ∙ fresh, h.runnable_fresh);
      waiting_fresh = h.waiting_fresh;
      split = λ x m. elim (MemD.cases_cons m) [
        | inl e ↦ inr (inl (Memᴰ.head e))
        | inr m' ↦ elim (h.split x m') [
          | inl done ↦ inl done
          | inr (inl r) ↦ inr (inl (Memᴰ.tail r))
          | inr (inr w) ↦ inr (inr w)
        ]
      ];
      waiting_distinct = h.waiting_distinct;
      waiting_sub = λ x m. Memᴰ.tail (h.waiting_sub x m);
      runnable_sub = λ x m. elim (MemD.cases_cons m) [
        | inl e ↦ Memᴰ.head e
        | inr m' ↦ Memᴰ.tail (h.runnable_sub x m')
      ];
      apart = λ x y m n. elim (MemD.cases_cons m) [
        | inl e ↦ λ same.
            other y (h.waiting_sub y n) (ap (λ (i : ScheduledResource). i.ref) (sym e) ∙ same)
        | inr m' ↦ h.apart x y m' n
      ];
    }

    Passed-skip :
        (reason : String)
        → decide world status item.deps ≡ skip_for reason
        → Passed (update status item.ref (some skip)) rest p
        → Passed status
            (item ∷ rest)
            (record p { emitted = emit_skip world item reason ∷ p.emitted; progressed = true })
    Passed-skip reason e h =
        let step = Later-update status item.ref skip fresh in
        let after : Later status p.status = λ r v k. h.later r v (step r v k) in
        let stored : p.status item.ref ≡ some skip =
          h.outside item.ref own ∙ update_self status item.ref (some skip) in
        record {
          kept = Perm.cons item h.kept;
          later = after;
          skipped = (
            record {
              reason = reason;
              decided = decide-Later world _ _ _ after (λ w. cc w) e;
              reported = refl;
              stored = stored;
            },
            h.skipped,
          );
          ready = h.ready;
          outside = λ r others.
              h.outside r others.1
              ∙ update_ne status item.ref r (some skip) (λ same. others.0 (sym same));
          runnable_fresh = h.runnable_fresh;
          waiting_fresh = h.waiting_fresh;
          split = λ x m. elim (MemD.cases_cons m) [
            | inl e ↦ inl (skip, ap (λ (i : ScheduledResource). p.status i.ref) e ∙ stored)
            | inr m' ↦ h.split x m'
          ];
          waiting_distinct = h.waiting_distinct;
          waiting_sub = λ x m. Memᴰ.tail (h.waiting_sub x m);
          runnable_sub = λ x m. Memᴰ.tail (h.runnable_sub x m);
          apart = h.apart;
        }

  Passed-nil : (status : Status) → Passed status [] (pass world status [])
  unfolding pass
  Passed-nil status = record {
    kept = Perm.refl [];
    later = λ r v e. e;
    skipped = tt;
    ready = tt;
    outside = λ r h. refl;
    runnable_fresh = tt;
    waiting_fresh = tt;
    split = λ x m. elim m [ ];
    waiting_distinct = tt;
    waiting_sub = λ x m. m;
    runnable_sub = λ x m. m;
    apart = λ x y m n. elim m [ ];
  }

  pub pass-Passed :
      (status : Status) (pending : List ScheduledResource)
      → Fresh status pending
      → Distinct (refs pending)
      → Passed status pending (pass world status pending)
  unfolding pass
  pass-Passed status [] f d = Passed-nil status
  pass-Passed status (item ∷ rest) (f, fs) (d, ds) =
      elim (Decision-cases (decide world status item.deps)) [
        | inl e ↦
            rw (f, e, pass) (Passed-wait status item rest _ f d (pass-Passed status rest fs ds))
        | inr (inl e) ↦
            rw (f, e, pass) (Passed-run status item rest _ f d e (pass-Passed status rest fs ds))
        | inr (inr (reason, e)) ↦
            rw (f, e, pass)
              (Passed-skip status item rest _ f d reason e (
                pass-Passed (update status item.ref (some skip)) rest
                  (Fresh-update status item.ref skip rest d fs) ds))
      ]
