-- ===== src/Run/Tests.antt =====
-- A run that passes at its third attempt, a run of two checks, and the theorems at them.
use mathlib.Core.List.Permᴰ as PermD
use syver.Resource.{Resource}
use syver.Resource.Skips.{returned}
use syver.Scheduler.Build.{RangeOrder}
use syver.Scheduler.Waves.{World, Workers}
use syver.Run.Validation.{Groups, ParallelOrder, run_validation}
use syver.Run.Disabling.{Bound, RunAsAll}
use syver.Run.Covering.{Covers, Answered, Outcome, run_validation_lem}
use syver.Prelude.{
  str_eq, Bool, List, [], ◌∷◌, ◌⊎◌, none, ℕ, zero, suc, ◌+◌, ◌≤◌, ◌≡◌, refl, String, false, some,
  Result, ok, arith,
}
use syver.Value.{pos}
use syver.Run.{Exit, exits, timed_out, retry, after_attempt, validate_config, worker_count}
use syver.Run.Retries.{Ended, validate_config-Ended}

-- The checks fail twice.
abbrev attempt : ℕ → Result String ℕ
attempt zero = ok 1
attempt (suc zero) = ok 1
attempt (suc (suc zero)) = ok 1
attempt (suc (suc (suc i))) = ok 0

-- Each sleep takes 2, and the checks no time.
abbrev elapsed : ℕ → ℕ
elapsed zero = 0
elapsed (suc i) = elapsed i + 2

sleeps : (i : ℕ) → elapsed i + 2 ≤ elapsed (suc i)
sleeps i = omega arith

passes : validate_config 2 10 attempt elapsed (λ i. false) ≡ some (exits 0)
unfolding validate_config retry after_attempt
passes = refl

-- With less time it gives up.
gives_up : validate_config 2 5 attempt elapsed (λ i. false) ≡ some timed_out
unfolding validate_config retry after_attempt
gives_up = refl

workers : (worker_count 4 (pos 50) ≡ 20) × (worker_count 4 (pos 0) ≡ 1)
unfolding worker_count
workers = (refl, refl)

validate_config-Ended_example :
    (exit : Exit) × (validate_config 2 10 attempt elapsed (λ i. false) ≡ some exit)
    × Ended 2 10 attempt elapsed (λ i. false) 1 exit
validate_config-Ended_example =
    validate_config-Ended 2 10 attempt elapsed (λ i. false) (omega arith) sleeps

abbrev world : World
world = record { validation = λ res. returned []; own_skip_reason = λ res. none; quote = λ s. s }

abbrev workers_in_order : Workers
workers_in_order = record { order = λ items. items; order_perm = λ items. PermD.refl items }

abbrev parallel_in_order : ParallelOrder
parallel_in_order = record { order = λ rs. rs; order_perm = λ rs. PermD.refl rs }

abbrev range_in_order : RangeOrder
range_in_order = record {
  order = λ keys. keys;
  order_sound = λ keys k m. m;
  order_complete = λ keys k m. m;
}

abbrev resource : String → List String → Resource
resource id depends_on = record {
  type_key = "file";
  type_name = "File";
  id_field = some id;
  read = some (record { id = id; title = "" });
  depends_on = depends_on;
  skip = false;
}

abbrev given : List Resource
given = resource "/etc/app.conf" ("/etc" ∷ []) ∷ resource "/etc" [] ∷ []

-- The type `file` is disabled.
abbrev is_file : String → List String → Bool
is_file value values = str_eq value "file"

run_validation_lem_example :
    (rans : List Resource) × RunAsAll is_file ("file" ∷ []) given rans
    × ((Bound rans
          × Outcome world workers_in_order range_in_order rans (
              run_validation world workers_in_order range_in_order parallel_in_order is_file
                ("file" ∷ [])
                given))
        ⊎ ((¬ Bound rans)
            × ((groups : Groups) × (run_validation world workers_in_order range_in_order
                    parallel_in_order is_file
                    ("file" ∷ [])
                    given
                  ≡ ok (some groups))
                × Covers (Answered world) rans groups)))
run_validation_lem_example =
    run_validation_lem world workers_in_order range_in_order parallel_in_order is_file ("file" ∷ [])
      given
