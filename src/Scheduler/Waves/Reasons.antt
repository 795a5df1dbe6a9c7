-- ===== src/Scheduler/Waves/Reasons.antt =====
-- The reason to skip an item: the first prerequisite, in the order written, that did not pass.
use syver.Prelude.{
  String, str_eq, ◌≡◌, refl, sym, ◌⊎◌, inl, inr, Bool, true, false, List, [], ◌∷◌, some, All,
  Option-cases, concat, subst, str_eq_of_ne, ◌++◌, ap,
}
use syver.Resource.Results.{Verdict, success, fail, skip, unknown}
use syver.Scheduler.Waves.{Status, World, Decision, skip_for, run, reason_for, scan_deps, decide}
use syver.Scheduler.Waves.Deciding.{Completed, scan-ready}

abbrev pub NotPassed : Verdict → Type 0
NotPassed v = (v ≡ fail) ⊎ (v ≡ skip)

abbrev pub PassedDep : Status → String → Type 0
PassedDep status d = (v : Verdict) → status d ≡ some v → ¬ NotPassed v

-- `dep` is the first of the prerequisites that failed or was skipped; `v` is its verdict.
pub record FirstNotPassed (status : Status) (deps : List String) (dep : String) (v : Verdict)
    : Type 0 where
  pub before : List String
  pub after : List String
  pub split : deps ≡ before ++ dep ∷ after
  pub passed_before : All (PassedDep status) before
  pub verdict : status dep ≡ some v
  pub not_passed : NotPassed v

module _ (world : World) where
  reason-ne-empty :
      (v : Verdict) (dep : String) → NotPassed v → str_eq (reason_for world v dep) "" ≡ false
  unfolding concat
  reason-ne-empty fail dep h = str_eq_of_ne _ _ (λ e. cc)
  reason-ne-empty skip dep h = str_eq_of_ne _ _ (λ e. cc)
  reason-ne-empty success dep h = elim h [ inl e ↦ cc | inr e ↦ cc ]
  reason-ne-empty unknown dep h = elim h [ inl e ↦ cc | inr e ↦ cc ]

  -- A reason that is set stays.
  scan_kept :
      (status : Status) (deps : List String) (ready : Bool) (reason : String)
      → str_eq reason "" ≡ false
      → (scan_deps world status deps ready reason).1 ≡ reason
  unfolding scan_deps
  scan_kept status [] ready reason h = refl
  scan_kept status (dep ∷ deps) ready reason h = elim (Option-cases (status dep)) [
    | inl e ↦ rw (e, scan_deps) (scan_kept status deps false reason h)
    | inr (v, e) ↦ rw (e, h, scan_deps) (scan_kept status deps ready reason h)
  ]

  passing :
      (status : Status) {v : Verdict} (dep : String)
      → status dep ≡ some v
      → ¬ NotPassed v
      → PassedDep status dep
  passing status dep e h v' e' n = h (subst NotPassed (cc) n)

  First-cons :
      {status : Status} {deps : List String} {dep : String} {v : Verdict} (d : String)
      → PassedDep status d
      → FirstNotPassed status deps dep v
      → FirstNotPassed status (d ∷ deps) dep v
  First-cons d h f = record {
    before = d ∷ f.before;
    after = f.after;
    split = ap (λ l. d ∷ l) f.split;
    passed_before = (h, f.passed_before);
    verdict = f.verdict;
    not_passed = f.not_passed;
  }

  -- Where the scan for a reason stops.
  abbrev Scanned : Status → List String → String → Type 0
  Scanned status deps reason =
      (All (PassedDep status) deps × (reason ≡ ""))
      ⊎ ((dep : String) × (v : Verdict) × FirstNotPassed status deps dep v
          × (reason ≡ reason_for world v dep))

  Scanned-cons :
      {status : Status} (d : String) (deps : List String) (reason : String)
      → PassedDep status d
      → Scanned status deps reason
      → Scanned status (d ∷ deps) reason
  Scanned-cons d deps reason h (inl (all, e)) = inl ((h, all), e)
  Scanned-cons d deps reason h (inr (dep, v, f, e)) = inr (dep, v, First-cons d h f, e)

  Scanned-here :
      {status : Status} {v : Verdict} (d : String) (deps : List String) (ready : Bool)
      → status d ≡ some v
      → NotPassed v
      → Scanned status (d ∷ deps) (scan_deps world status deps ready (reason_for world v d)).1
  Scanned-here {status} {v} d deps ready e n = inr (
    d,
    v,
    record {
      before = [];
      after = deps;
      split = refl;
      passed_before = tt;
      verdict = e;
      not_passed = n;
    },
    scan_kept status deps ready (reason_for world v d) (reason-ne-empty v d n),
  )

  scan_step :
      (status : Status) (d : String) (deps : List String) (ready : Bool) (v : Verdict)
      → status d ≡ some v
      → scan_deps world status (d ∷ deps) ready ""
        ≡ scan_deps world status deps ready (reason_for world v d)
  unfolding scan_deps
  scan_step status d deps ready v e = rw (e, scan_deps) refl

  quiet : (v : Verdict) (d : String) → ¬ NotPassed v → reason_for world v d ≡ ""
  quiet success d h = refl
  quiet unknown d h = refl
  quiet fail d h = absurd (h (inl refl))
  quiet skip d h = absurd (h (inr refl))

  NotPassed-dec : (v : Verdict) → NotPassed v ⊎ ¬ NotPassed v
  NotPassed-dec fail = inl (inl refl)
  NotPassed-dec skip = inl (inr refl)
  NotPassed-dec success = inr (λ n. elim n [ inl x ↦ cc | inr x ↦ cc ])
  NotPassed-dec unknown = inr (λ n. elim n [ inl x ↦ cc | inr x ↦ cc ])

  scan-Scanned :
      (status : Status) (deps : List String) (ready : Bool)
      → All (Completed status) deps
      → Scanned status deps (scan_deps world status deps ready "").1
  unfolding scan_deps
  scan-Scanned status [] ready h = inl (tt, refl)
  scan-Scanned status (d ∷ deps) ready ((v, e), h) =
      let step = sym (scan_step status d deps ready v e) in
      subst (λ r. Scanned status (d ∷ deps) r.1) step
        (elim (NotPassed-dec v) [
          | inl n ↦ Scanned-here d deps ready e n
          | inr n ↦ Scanned-cons d deps _ (passing status d e n) (
              subst (λ r. Scanned status deps (scan_deps world status deps ready r).1)
                (sym (quiet v d n)) (scan-Scanned status deps ready h))
        ])

  -- The two ways to decide an item whose prerequisites have completed.
  abbrev pub DecidedAs : Status → List String → Decision → Type 0
  DecidedAs status deps d =
      (All (PassedDep status) deps × (d ≡ run))
      ⊎ ((dep : String) × (v : Verdict) × FirstNotPassed status deps dep v
          × (d ≡ skip_for (reason_for world v dep)))

  -- An item whose prerequisites have all completed is decided at once: it is run if none of them
  -- failed or was skipped, and is otherwise skipped for the first one, in the order written, that
  -- was.
  pub decide-DecidedAs :
      (status : Status) (deps : List String)
      → All (Completed status) deps
      → DecidedAs status deps (decide world status deps)
  unfolding decide
  decide-DecidedAs status deps h =
      let ready = scan-ready world status deps true "" refl h in
      elim (scan-Scanned status deps true h) [
        | inl (all, e) ↦ inl (all, rw (ready, e) refl)
        | inr (dep, v, f, e) ↦
            inr (dep, v, f, rw (ready, e, reason-ne-empty v dep f.not_passed) refl)
      ]
