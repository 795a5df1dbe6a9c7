-- ===== src/Serve/Tests.antt =====
-- Small runs of the health endpoint, and the theorems at them.
use syver.Prelude.{
  ℕ, zero, suc, ◌≡◌, refl, ◌≤◌, ◌↔◌, ◌⊎◌, true, false, List, [], ◌∷◌, none, some, Result, ok,
  String, All,
}
use syver.Resource.Results.{TestResult, fail, success, no_matcher_result}
use syver.Outputs.{nagios_output, rspecish_output, silent_output, structured_output, tap_output}
use syver.Outputs.Exits.{fails, Known, Says, exit_codes_lem}
use syver.Serve.{any_failed, output_status, validate, group_failed}
use syver.Serve.Status.{output_status_lem}
use syver.Serve.Requests.{
  Groups, answered, run_events, cold, happen, advance, advance_from, look, look_again, take_lock,
  set_phase, cached_results,
}
use syver.Serve.Sweeps.{inside, run_events-one_inside}
use syver.Serve.Bursts.{steps_of, run_events-one_sweep}
use syver.Serve.Progress.{AnsweredWithin, run_events-AnsweredWithin}

abbrev missing : TestResult
missing = record {
  successful = false;
  skipped = false;
  skip_reason = "";
  resource_id = "/bin/app";
  resource_type = "File";
  property = "exists";
  title = "";
  result = fail;
  error = none;
  matcher_result = no_matcher_result;
}

abbrev found : TestResult
found = record missing { result = success; successful = true }

abbrev groups : Groups
groups = (found ∷ missing ∷ []) ∷ (found ∷ []) ∷ []

known : All (All Known) groups
known = (((λ e. cc), ((λ e. cc), tt)), (((λ e. cc), tt), tt))

served : (output_status (any_failed groups) ≡ 503)
unfolding output_status any_failed group_failed
served = refl

output_status_lem_example :
    ((output_status (any_failed (validate "spec.yaml" (ok groups))) ≡ 200)
      ↔ ((gs : Groups) × (◌≡◌ {A = Result String Groups} (ok groups) (ok gs)) × (fails gs ≡ 0)))
    × ((output_status (any_failed (validate "spec.yaml" (ok groups))) ≡ 200)
        ⊎ (output_status (any_failed (validate "spec.yaml" (ok groups))) ≡ 503))
output_status_lem_example = output_status_lem "spec.yaml" (ok groups)

exit_codes_lem_example :
    Says (nagios_output groups) groups
    × Says (rspecish_output groups) groups
    × Says (silent_output groups) groups
    × Says (structured_output true groups) groups
    × ((code : ℕ) × (tap_output groups ≡ some code) × Says code groups)
exit_codes_lem_example = exit_codes_lem groups known

-- The first sweep finds the file missing, later ones find it.
abbrev sweep : ℕ → Groups
sweep zero = (missing ∷ []) ∷ []
sweep (suc n) = (found ∷ []) ∷ []

-- Two requests miss the cache before either of them sweeps.
abbrev race : List ℕ
race = 1 ∷ 2 ∷ 1 ∷ 2 ∷ 1 ∷ 1 ∷ 2 ∷ 2 ∷ []

requests : Unit {0}
unfolding run_events happen advance advance_from look look_again take_lock set_phase cached_results
requests = tt

race_ends :
    ((run_events true sweep (steps_of race) cold).sweeps ≡ 1)
    × ((run_events true sweep (steps_of race) cold).phase 1 ≡ answered (sweep 0))
    × ((run_events true sweep (steps_of race) cold).phase 2 ≡ answered (sweep 0))
unfolding requests
race_ends = (refl, refl, refl)

-- With the cache disabled each of the two makes its own.
race_uncached :
    ((run_events false sweep (steps_of race) cold).sweeps ≡ 2)
    × ((run_events false sweep (steps_of race) cold).phase 1 ≡ answered (sweep 0))
unfolding requests
race_uncached = (refl, refl)

run_events-one_sweep_example :
    ((run_events true sweep (steps_of race) cold).sweeps ≤ 1)
    × ((t : ℕ) (gs : Groups)
        → (run_events true sweep (steps_of race) cold).phase t ≡ answered gs
        → gs ≡ sweep 0)
run_events-one_sweep_example = run_events-one_sweep sweep race

-- The first request is in its sweep.
holder : inside ((run_events true sweep (steps_of (1 ∷ 2 ∷ 1 ∷ 1 ∷ [])) cold).phase 1) ≡ true
unfolding requests
holder = refl

run_events-one_inside_example : ◌≡◌ {A = ℕ} 1 1
run_events-one_inside_example =
    run_events-one_inside true sweep (steps_of (1 ∷ 2 ∷ 1 ∷ 1 ∷ [])) 1 1 holder holder

-- Request 2 waits for the lock, which request 1 holds while it sweeps.
run_events-AnsweredWithin_example :
    (u : ℕ) × ((u ≡ 2)
      ⊎ ((run_events true sweep (steps_of (1 ∷ 2 ∷ 1 ∷ 1 ∷ [])) cold).lock ≡ some u))
    × AnsweredWithin true sweep 6 u 2 (run_events true sweep (steps_of (1 ∷ 2 ∷ 1 ∷ 1 ∷ [])) cold)
run_events-AnsweredWithin_example =
    run_events-AnsweredWithin true sweep (steps_of (1 ∷ 2 ∷ 1 ∷ 1 ∷ [])) 2
