-- ===== src/Scheduler/Waves/Verdicts.antt =====
-- What is to be sent and stored for an item, from the final verdicts of its prerequisites.
use syver.Prelude.{
  String, concat, ◌≡◌, ◌≢◌, refl, ◌⊎◌, inl, inr, true, false, List, [], ◌∷◌, ◌++◌, Option, some,
  Memᴰ, All, any,
}
use syver.Resource.Reason.{one_line_skip_reason}
use syver.Resource.Results.{Verdict, success, fail, skip, unknown, is_fail, TestResult}
use syver.Resource.Skips.{validate_safe}
use syver.Scheduler.Waves.{Status, Emission, World, reason_for, verdict_of, passed}
use syver.Scheduler.Waves.Reasons.{NotPassed}

abbrev pub Succeeded : Status → String → Type 0
Succeeded final d = final d ≡ some success

-- `dep` is the first of the prerequisites that did not succeed; `v` is its verdict.
pub record FirstMissed (final : Status) (deps : List String) (dep : String) (v : Verdict)
    : Type 0 where
  pub before : List String
  pub after : List String
  pub split : deps ≡ before ++ dep ∷ after
  pub succeeded_before : All (Succeeded final) before
  pub verdict : final dep ≡ some v

-- The verdict that belongs to some results.
abbrev pub Judged : List TestResult → Option Verdict → Type 0
Judged results stored =
    ((stored ≡ some success) × All (λ (r : TestResult). r.result ≢ fail) results)
    ⊎ ((stored ≡ some fail) × ((r : TestResult) × Memᴰ r results × (r.result ≡ fail)))

-- The results are one, which is skipped for the reason.
abbrev pub SkipReport : List TestResult → String → Type 0
SkipReport results reason =
    (r : TestResult) × (results ≡ r ∷ [])
    × (r.result ≡ skip)
    × (r.skipped ≡ true)
    × (r.skip_reason ≡ one_line_skip_reason reason)
    × (r.property ≡ "depends-on")

module _ (world : World) where
  -- What is told of a prerequisite that did not succeed.
  pub data Told : Verdict → String → String → Type 0 where
    of_failed :
        {dep : String} → Told fail dep (concat "dependency " (concat (world.quote dep) " failed"))
    of_skipped :
        {dep : String}
        → Told skip dep (concat "dependency " (concat (world.quote dep) " was skipped"))

  -- All prerequisites succeeded; the check was run and reported, and its verdict stored.
  pub record Checked (final : Status) (e : Emission) : Type 0 where
    pub prerequisites : All (Succeeded final) e.source.deps
    pub reported :
        e.results
        ≡ validate_safe e.source.resource
            (world.own_skip_reason e.source.resource)
            (world.validation e.source.resource)
    pub judged : Judged e.results (final e.source.ref)

  -- The first prerequisite that did not succeed failed or was skipped; the item was reported and
  -- stored as skipped, with the reason that tells of this prerequisite.
  pub record PassedOver (final : Status) (e : Emission) : Type 0 where
    pub dep : String
    pub v : Verdict
    pub reason : String
    pub missed : FirstMissed final e.source.deps dep v
    pub told : Told v dep reason
    pub reported : SkipReport e.results reason
    pub stored : final e.source.ref ≡ some skip

  abbrev pub Reported : Status → Emission → Type 0
  Reported final e = Checked final e ⊎ PassedOver final e

  pub reason_for-Told :
      (v : Verdict) (dep : String) → NotPassed v → Told v dep (reason_for world v dep)
  reason_for-Told fail dep n = of_failed
  reason_for-Told skip dep n = of_skipped
  reason_for-Told success dep n = elim n [ inl e ↦ cc | inr e ↦ cc ]
  reason_for-Told unknown dep n = elim n [ inl e ↦ cc | inr e ↦ cc ]

fail-cases : (v : Verdict) → (v ≡ fail) ⊎ ((is_fail v ≡ false) × (v ≢ fail))
fail-cases fail = inl refl
fail-cases success = inr (refl, λ e. cc)
fail-cases skip = inr (refl, λ e. cc)
fail-cases unknown = inr (refl, λ e. cc)

-- Whether a result failed.
tally :
    (results : List TestResult)
    → ((any (λ (r : TestResult). is_fail r.result) results ≡ false)
        × All (λ (r : TestResult). r.result ≢ fail) results)
      ⊎ ((any (λ (r : TestResult). is_fail r.result) results ≡ true)
          × ((r : TestResult) × Memᴰ r results × (r.result ≡ fail)))
tally [] = inl (refl, tt)
tally (r ∷ rs) = elim (fail-cases r.result) [
  | inl e ↦ inr (rw e refl, (r, Memᴰ.head refl, e))
  | inr (e, n) ↦ elim (tally rs) [
    | inl (none_failed, all) ↦ inl (rw (e, none_failed) refl, (n, all))
    | inr (some_failed, (r', m, x)) ↦ inr (rw (e, some_failed) refl, (r', Memᴰ.tail m, x))
  ]
]

pub verdict_of-cases : (results : List TestResult) → Judged results (some (verdict_of results))
unfolding verdict_of passed
verdict_of-cases results = elim (tally results) [
  | inl (e, all) ↦ inl (rw e refl, all)
  | inr (e, failed) ↦ inr (rw e refl, failed)
]
