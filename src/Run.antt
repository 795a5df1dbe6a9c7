-- ===== src/Run.antt =====
-- validate.go: how many workers a run has, and the loop of ValidateConfig that tries again.
pub mod Retries
pub mod Validation
pub mod Disabling
pub mod Covering
mod Tests
use syver.Prelude.{
  ℕ, zero, suc, ◌+◌, ◌*◌, String, Bool, true, false, ◌||◌, Option, none, some, Result, ok, err,
  if◌then◌else◌, ltb, ◌==◌,
}
use syver.Value.{ℤ, pos, negsuc}

-- `ValidateMaxConcurrent`: whether the number is accepted.
unfoldable pub validate_max_concurrent : ℤ → Bool
validate_max_concurrent (pos zero) = false
validate_max_concurrent (pos (suc n)) = true
validate_max_concurrent (negsuc n) = false

-- `min(cpus*5, maxConcurrent)`, and `max(1, ...)` of it.
unfoldable pub worker_count : ℕ → ℤ → ℕ
worker_count cpus (negsuc n) = 1
worker_count cpus (pos n) =
    let capped = if ltb n (cpus * 5) then n else cpus * 5 in if ltb capped 1 then 1 else capped

-- What `ValidateConfig` returns: the format's exit code, 1 and the error of a run that could not
-- start, or 3 with the error of a timeout or of the context.
pub data Exit : Type 0 where
  exits : ℕ → Exit
  not_run : String → Exit
  timed_out interrupted : Exit

unfoldable pub exit_code : Exit → ℕ
exit_code (exits code) = code
exit_code (not_run problem) = 1
exit_code timed_out = 3
exit_code interrupted = 3

-- Attempt `i` runs the checks and prints them, with that exit code, or cannot run; `elapsed i` is
-- the time since the start when it has ended, and `cancelled i` whether the context is done before
-- the sleep behind it is over. Durations are in nanoseconds.
module _ (sleep retry_timeout : ℕ) (attempt : ℕ → Result String ℕ) (elapsed : ℕ → ℕ)
    (cancelled : ℕ → Bool) where
  -- The body of the loop behind an attempt; `again` is what the further attempts come to.
  unfoldable pub after_attempt : ℕ → Result String ℕ → Option Exit → Option Exit
  after_attempt i (err problem) again = some (not_run problem)
  after_attempt i (ok code) again =
      if retry_timeout == 0 || code == 0
      then some (exits code)
      else if ltb retry_timeout (elapsed i + sleep)
      then some timed_out
      else if cancelled i
      then some interrupted
      else again

  -- The loop, from attempt `i`; `none` is the model's own, for a lack of fuel.
  unfoldable pub retry : ℕ → ℕ → Option Exit
  unfolding after_attempt
  retry zero i = none
  retry (suc fuel) i = after_attempt i (attempt i) (retry fuel (suc i))

  -- `ValidateConfig`, for a format other than "discovery".
  unfoldable pub validate_config : Option Exit
  unfolding retry
  validate_config = retry (suc (suc retry_timeout)) 1
