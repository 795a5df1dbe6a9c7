-- ===== src/Outputs.antt =====
-- outputs/: what the formats count over the groups of results, and the exit codes they answer with.
-- The text they print is left out.
pub mod Exits
pub mod Options
pub mod Meta
use syver.Prelude.{
  ℕ, suc, ◌+◌, Bool, true, false, List, [], ◌∷◌, Option, none, some, if◌then◌else◌, ltb,
}
use syver.Resource.Results.{TestResult, success, fail, skip, unknown, is_fail}

-- The counters of a format.
pub record Tally : Type 0 where
  pub test_count : ℕ
  pub failed : ℕ
  pub skipped : ℕ

abbrev pub no_tally : Tally
no_tally = record { test_count = 0; failed = 0; skipped = 0 }

module _ {T : Type 0} (count : T → TestResult → T) where
  -- `for _, testResult := range resultGroup`
  unfoldable pub count_group : T → List TestResult → T
  count_group tally [] = tally
  count_group tally (r ∷ rs) = count_group (count tally r) rs

  -- `for resultGroup := range results`
  unfoldable pub count_groups : T → List (List TestResult) → T
  unfolding count_group
  count_groups tally [] = tally
  count_groups tally (group ∷ groups) = count_groups (count_group tally group) groups

-- nagios.go: the switch in the loop of `Output`.
unfoldable pub nagios_count : Tally → TestResult → Tally
nagios_count t r = elim r.result [
  | fail ↦ record t { failed = suc t.failed; test_count = suc t.test_count }
  | skip ↦ record t { skipped = suc t.skipped; test_count = suc t.test_count }
  | _ ↦ record t { test_count = suc t.test_count }
]

unfoldable pub nagios_output : List (List TestResult) → ℕ
unfolding nagios_count
nagios_output groups =
    let tally = count_groups nagios_count no_tally groups in if ltb 0 tally.failed then 2 else 0

-- rspecish.go: the counters of `Output`.
unfoldable pub rspecish_count : Tally → TestResult → Tally
rspecish_count t r = elim r.result [
  | skip ↦ record t { skipped = suc t.skipped; test_count = suc t.test_count }
  | fail ↦ record t { failed = suc t.failed; test_count = suc t.test_count }
  | _ ↦ record t { test_count = suc t.test_count }
]

unfoldable pub rspecish_output : List (List TestResult) → ℕ
unfolding rspecish_count
rspecish_output groups =
    let tally = count_groups rspecish_count no_tally groups in if ltb 0 tally.failed then 1 else 0

-- silent.go
unfoldable pub silent_count : ℕ → TestResult → ℕ
silent_count failed r = elim r.result [ fail ↦ suc failed | _ ↦ failed ]

unfoldable pub silent_output : List (List TestResult) → ℕ
unfolding silent_count
silent_output groups = if ltb 0 (count_groups silent_count 0 groups) then 1 else 0

-- structured.go: `Summary.Failed` and `Summary.TestCount`.
unfoldable pub structured_count : Tally → TestResult → Tally
structured_count t r =
    let counted = if is_fail r.result then record t { failed = suc t.failed } else t in
    record counted { test_count = suc counted.test_count }

-- `marshals` says whether the JSON of the result could be written.
unfoldable pub structured_output : Bool → List (List TestResult) → ℕ
unfolding structured_count
structured_output marshals groups =
    let tally = count_groups structured_count no_tally groups in
    if marshals then (if ltb 0 tally.failed then 1 else 0) else 1

-- tap.go; `none` is the panic on a result that is of none of the three kinds.
unfoldable pub tap_count : Option Tally → TestResult → Option Tally
tap_count none r = none
tap_count (some t) r = elim r.result [
  | success ↦ some (record t { test_count = suc t.test_count })
  | fail ↦ some (record t { failed = suc t.failed; test_count = suc t.test_count })
  | skip ↦ some (record t { test_count = suc t.test_count })
  | unknown ↦ none
]

abbrev exit_tap : Option Tally → Option ℕ
exit_tap none = none
exit_tap (some t) = some (if ltb 0 t.failed then 1 else 0)

unfoldable pub tap_output : List (List TestResult) → Option ℕ
unfolding tap_count
tap_output groups = exit_tap (count_groups tap_count (some no_tally) groups)
