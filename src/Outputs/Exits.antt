-- ===== src/Outputs/Exits.antt =====
-- What the counters of the formats hold at the end, and the exit codes.
use syver.Prelude.{
  ℕ, suc, ◌+◌, ◌<◌, ◌≡◌, ◌≢◌, refl, ◌↔◌, true, List, [], ◌∷◌, none, some, ltb, if◌then◌else◌, All,
  arith,
}
use syver.Resource.Results.{Verdict, TestResult, success, fail, skip, unknown, is_fail}
use syver.Outputs.{
  Tally, no_tally, count_group, count_groups, nagios_count, nagios_output, rspecish_count,
  rspecish_output, silent_count, silent_output, structured_count, structured_output, tap_count,
  tap_output,
}

-- How many results failed.
unfoldable pub fails_of : List TestResult → ℕ
fails_of [] = 0
fails_of (r ∷ rs) = (if is_fail r.result then 1 else 0) + fails_of rs

unfoldable pub fails : List (List TestResult) → ℕ
unfolding fails_of
fails [] = 0
fails (group ∷ groups) = fails_of group + fails groups

-- A counter `failed` of the state that every result with FAIL raises by one, and no other result.
module _ {T : Type 0} (count : T → TestResult → T) (failed : T → ℕ)
    (counts : (t : T) (r : TestResult)
      → failed (count t r) ≡ failed t + (if is_fail r.result then 1 else 0)) where
  group-fails :
      (t : T) (rs : List TestResult) → failed (count_group count t rs) ≡ failed t + fails_of rs
  unfolding count_group fails_of
  group-fails t [] = omega arith
  group-fails t (r ∷ rs) = omega (arith, group-fails (count t r) rs, counts t r)

  groups-fails :
      (t : T) (groups : List (List TestResult))
      → failed (count_groups count t groups) ≡ failed t + fails groups
  unfolding count_groups fails
  groups-fails t [] = omega arith
  groups-fails t (group ∷ groups) =
      omega (arith, groups-fails (count_group count t group) groups, group-fails t group)

nagios_count-failed :
    (t : Tally) (r : TestResult)
    → (nagios_count t r).failed ≡ t.failed + (if is_fail r.result then 1 else 0)
unfolding nagios_count
nagios_count-failed t r = ground arith

rspecish_count-failed :
    (t : Tally) (r : TestResult)
    → (rspecish_count t r).failed ≡ t.failed + (if is_fail r.result then 1 else 0)
unfolding rspecish_count
rspecish_count-failed t r = ground arith

silent_count-failed :
    (n : ℕ) (r : TestResult) → silent_count n r ≡ n + (if is_fail r.result then 1 else 0)
unfolding silent_count
silent_count-failed n r = ground arith

structured_count-failed :
    (t : Tally) (r : TestResult)
    → (structured_count t r).failed ≡ t.failed + (if is_fail r.result then 1 else 0)
unfolding structured_count
structured_count-failed t r = ground arith

-- A result of one of the three kinds that the checks give.
abbrev pub Known : TestResult → Type 0
Known r = r.result ≢ unknown

tap_step :
    (t : Tally) (r : TestResult)
    → Known r
    → (t' : Tally) × (tap_count (some t) r ≡ some t')
      × (t'.failed ≡ t.failed + (if is_fail r.result then 1 else 0))
unfolding tap_count
tap_step t r known = known_step r.result known
  where
    known_step :
        (v : Verdict)
        → v ≢ unknown
        → (t' : Tally) × ((elim v [
          | success ↦ some (record t { test_count = suc t.test_count })
          | fail ↦ some (record t { failed = suc t.failed; test_count = suc t.test_count })
          | skip ↦ some (record t { test_count = suc t.test_count })
          | unknown ↦ none
        ])
            ≡ some t')
          × (t'.failed ≡ t.failed + (if is_fail v then 1 else 0))
    known_step success h = (_, refl, omega arith)
    known_step fail h = (_, refl, omega arith)
    known_step skip h = (_, refl, omega arith)
    known_step unknown h = absurd (h refl)

tap_group :
    (t : Tally) (rs : List TestResult)
    → All Known rs
    → (t' : Tally) × (count_group tap_count (some t) rs ≡ some t')
      × (t'.failed ≡ t.failed + fails_of rs)
unfolding count_group fails_of
tap_group t [] h = (t, refl, omega arith)
tap_group t (r ∷ rs) h =
    let (t₁, step, one) = tap_step t r h.0 in
    let (t₂, rest, all) = tap_group t₁ rs h.1 in (t₂, rw step rest, omega (arith, one, all))

tap_groups :
    (t : Tally) (groups : List (List TestResult))
    → All (All Known) groups
    → (t' : Tally) × (count_groups tap_count (some t) groups ≡ some t')
      × (t'.failed ≡ t.failed + fails groups)
unfolding count_groups fails
tap_groups t [] h = (t, refl, omega arith)
tap_groups t (group ∷ groups) h =
    let (t₁, step, one) = tap_group t group h.0 in
    let (t₂, rest, all) = tap_groups t₁ groups h.1 in (t₂, rw step rest, omega (arith, one, all))

-- An exit code of 0 says that no result failed.
abbrev pub Says : ℕ → List (List TestResult) → Type 0
Says code groups = (code ≡ 0) ↔ (fails groups ≡ 0)

Says-code :
    (bad n : ℕ) (groups : List (List TestResult))
    → 0 < bad
    → n ≡ 0 + fails groups
    → Says (if ltb 0 n then bad else 0) groups
Says-code bad n groups h e =
    let same : n ≡ fails groups = omega (arith, e) in ground (arith, h, same)

tap_exit :
    (groups : List (List TestResult))
    → All (All Known) groups
    → (code : ℕ) × (tap_output groups ≡ some code) × Says code groups
unfolding tap_output
tap_exit groups known =
    let (t, e, n) = tap_groups no_tally groups known in
    (if ltb 0 t.failed then 1 else 0, rw e refl, Says-code 1 t.failed groups (omega arith) n)

-- The formats agree on the verdict of a run whose results passed, failed or were skipped: each of
-- nagios, rspecish, silent, structured (where its JSON can be written) and tap answers with the exit
-- code 0 exactly when no result of any group failed; and tap does not panic.
pub exit_codes_lem :
    (groups : List (List TestResult))
    → All (All Known) groups
    → Says (nagios_output groups) groups
      × Says (rspecish_output groups) groups
      × Says (silent_output groups) groups
      × Says (structured_output true groups) groups
      × ((code : ℕ) × (tap_output groups ≡ some code) × Says code groups)
unfolding nagios_output rspecish_output silent_output structured_output
exit_codes_lem groups known = (
  Says-code 2 _ groups (omega arith)
      (groups-fails nagios_count (λ t. t.failed) nagios_count-failed no_tally groups),
  Says-code 1 _ groups (omega arith)
      (groups-fails rspecish_count (λ t. t.failed) rspecish_count-failed no_tally groups),
  Says-code 1 _ groups (omega arith)
      (groups-fails silent_count (λ n. n) silent_count-failed 0 groups),
  Says-code 1 _ groups (omega arith)
      (groups-fails structured_count (λ t. t.failed) structured_count-failed no_tally groups),
  tap_exit groups known,
)
