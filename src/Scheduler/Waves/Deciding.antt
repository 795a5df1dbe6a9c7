-- ===== src/Scheduler/Waves/Deciding.antt =====
-- A decision about an item depends only on its prerequisites, and stands once it is made.
use syver.Prelude.{
  String, str_eq, ◌≡◌, refl, sym, ◌∙◌, ◌≢◌, inl, inr, Bool, true, false, List, [], ◌∷◌, none, some,
  All, Option-cases, Bool-cases, update, arith, eq_iff,
}
use syver.Resource.Results.{Verdict}
use syver.Scheduler.Waves.{Status, World, Decision, wait, scan_deps, decide}

-- What has completed stays as it was.
abbrev pub Later : Status → Status → Type 0
Later before after = (r : String) (v : Verdict) → before r ≡ some v → after r ≡ some v

pub Later-update :
    (status : Status) (ref : String) (v : Verdict)
    → status ref ≡ none
    → Later status (update status ref (some v))
unfolding update
Later-update status ref v fresh r w e = ground (arith, eq_iff ref r)

abbrev pub Completed : Status → String → Type 0
Completed status r = (v : Verdict) × (status r ≡ some v)

module _ (world : World) where
  -- An item that does not have to wait has completed prerequisites only.
  scan-Completed :
      (status : Status) (deps : List String) (ready : Bool) (reason : String)
      → (scan_deps world status deps ready reason).0 ≡ true
      → (ready ≡ true) × All (Completed status) deps
  unfolding scan_deps
  scan-Completed status [] ready reason e = (e, tt)
  scan-Completed status (dep ∷ deps) ready reason e = elim (Option-cases (status dep)) [
    | inl missing ↦
        let (never, _) = scan-Completed status deps false reason (rw (missing, scan_deps) at e) in
        cc
    | inr (v, found) ↦
        let (was, all) = scan-Completed status deps ready _ (rw (found, scan_deps) at e) in
        (was, ((v, found), all))
  ]

  pub decide-Completed :
      (status : Status) (deps : List String)
      → decide world status deps ≢ wait
      → All (Completed status) deps
  unfolding decide
  decide-Completed status deps h = elim (Bool-cases (scan_deps world status deps true "").0) [
    | inl ready ↦ (scan-Completed status deps true "" ready).1
    | inr waits ↦ absurd (h (rw waits refl))
  ]

  pub scan-ready :
      (status : Status) (deps : List String) (ready : Bool) (reason : String)
      → ready ≡ true
      → All (Completed status) deps
      → (scan_deps world status deps ready reason).0 ≡ true
  unfolding scan_deps
  scan-ready status [] ready reason r h = r
  scan-ready status (dep ∷ deps) ready reason r ((v, e), h) =
      rw (e, scan_deps) (scan-ready status deps ready _ r h)

  pub decide-ne-wait :
      (status : Status) (deps : List String)
      → All (Completed status) deps
      → decide world status deps ≢ wait
  unfolding decide
  decide-ne-wait status deps h e =
      let ready = scan-ready status deps true "" refl h in
      elim (Bool-cases (str_eq (scan_deps world status deps true "").1 "")) [
        | inl empty ↦ cc (rw (ready, empty) at e)
        | inr given ↦ cc (rw (ready, given) at e)
      ]

  scan_congr :
      (before after : Status) (deps : List String) (ready : Bool) (reason : String)
      → All (λ d. before d ≡ after d) deps
      → scan_deps world before deps ready reason ≡ scan_deps world after deps ready reason
  unfolding scan_deps
  scan_congr before after [] ready reason h = refl
  scan_congr before after (dep ∷ deps) ready reason (e, h) = elim (Option-cases (before dep)) [
    | inl p ↦ rw (p, sym e ∙ p, scan_deps) (scan_congr before after deps false reason h)
    | inr (v, p) ↦ rw (p, sym e ∙ p, scan_deps) (scan_congr before after deps ready _ h)
  ]

  -- A decision reads the statuses of the prerequisites and nothing else.
  pub decide_congr :
      (before after : Status) (deps : List String)
      → All (λ d. before d ≡ after d) deps
      → decide world before deps ≡ decide world after deps
  unfolding decide
  decide_congr before after deps h = rw (scan_congr before after deps true "" h) refl

  agree :
      (before after : Status) (deps : List String)
      → Later before after
      → All (Completed before) deps
      → All (λ d. before d ≡ after d) deps
  agree before after [] l h = tt
  agree before after (dep ∷ deps) l ((v, e), h) = (e ∙ sym (l dep v e), agree before after deps l h)

  -- Once an item is decided, what completes afterwards does not change the decision.
  pub decide-Later :
      (before after : Status) (deps : List String) {d : Decision}
      → Later before after
      → d ≢ wait
      → decide world before deps ≡ d
      → decide world after deps ≡ d
  decide-Later before after deps l h e =
      let decided = decide-Completed before deps (λ w. h (sym e ∙ w)) in
      sym (decide_congr before after deps (agree before after deps l decided)) ∙ e
