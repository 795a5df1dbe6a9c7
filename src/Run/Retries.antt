-- ===== src/Run/Retries.antt =====
-- The attempts of ValidateConfig: how they end, and that they do.
use syver.Prelude.{
  ℕ, zero, suc, ◌+◌, ◌≤◌, ◌<◌, ◌≡◌, ◌≢◌, refl, ◌∙◌, ◌⊎◌, inl, inr, String, Bool, true, false, ◌||◌,
  Option, some, Result, ok, err, ltb, ◌==◌, ==_iff, Bool-cases, arith, subst,
}
use syver.Run.{Exit, exits, not_run, timed_out, interrupted, after_attempt, retry, validate_config}

module _ (sleep retry_timeout : ℕ) (attempt : ℕ → Result String ℕ) (elapsed : ℕ → ℕ)
    (cancelled : ℕ → Bool) where
  -- Attempt `i` fails, with time and without an interruption to try again.
  pub record Retried (i : ℕ) : Type 0 where
    pub code : ℕ
    pub ran : attempt i ≡ ok code
    pub failing : code ≢ 0
    pub wanted : retry_timeout ≢ 0
    pub in_time : elapsed i + sleep ≤ retry_timeout
    pub running : cancelled i ≡ false

  -- What the last attempt says about the exit.
  abbrev pub Last : ℕ → Exit → Type 0
  Last i (exits code) = (attempt i ≡ ok code) × ((code ≡ 0) ⊎ (retry_timeout ≡ 0))
  Last i (not_run problem) = attempt i ≡ err problem
  Last i timed_out =
      (code : ℕ) × (attempt i ≡ ok code) × (code ≢ 0) × (retry_timeout < elapsed i + sleep)
  Last i interrupted = (code : ℕ) × (attempt i ≡ ok code) × (code ≢ 0) × (cancelled i ≡ true)

  -- From attempt `i` on, all but the last attempt are retried.
  pub record Ended (i : ℕ) (exit : Exit) : Type 0 where
    pub last : ℕ
    pub from : i ≤ last
    pub retried : (j : ℕ) → i ≤ j → j < last → Retried j
    pub at_last : Last last exit

  abbrev Next : ℕ → Result String ℕ → Type 0
  Next i r =
      ((exit : Exit) × Last i exit
        × ((again : Option Exit)
            → after_attempt sleep retry_timeout attempt elapsed cancelled i r again ≡ some exit))
      ⊎ (Retried i
          × ((again : Option Exit)
              → after_attempt sleep retry_timeout attempt elapsed cancelled i r again ≡ again))

  next : (i : ℕ) (r : Result String ℕ) → attempt i ≡ r → Next i r
  unfolding after_attempt
  next i (err problem) e = inl (not_run problem, e, λ again. refl)
  next i (ok code) e = elim (Bool-cases (retry_timeout == 0 || code == 0)) [
    | inl over ↦ inl (exits code, (e, ground (arith, over)), λ again. rw over refl)
    | inr failing ↦ elim (Bool-cases (ltb retry_timeout (elapsed i + sleep))) [
      | inl late ↦ inl (
        timed_out,
        (code, e, ground (arith, failing), ground (arith, late)),
        λ again. rw (failing, late) refl,
      )
      | inr early ↦ elim (Bool-cases (cancelled i)) [
        | inl stop ↦ inl (
          interrupted,
          (code, e, ground (arith, failing), stop),
          λ again. rw (failing, early, stop) refl,
        )
        | inr on ↦ inr (
          record {
            code = code;
            ran = e;
            failing = ground (arith, failing);
            wanted = ground (arith, failing);
            in_time = ground (arith, early);
            running = on;
          },
          λ again. rw (failing, early, on) refl,
        )
      ]
    ]
  ]

  Ended-now : (i : ℕ) (exit : Exit) → Last i exit → Ended i exit
  Ended-now i exit l = record {
    last = i;
    from = omega arith;
    retried = λ j h h'. absurd (omega (arith, h, h'));
    at_last = l;
  }

  Ended-later : (i : ℕ) (exit : Exit) → Retried i → Ended (suc i) exit → Ended i exit
  Ended-later i exit r e = record {
    last = e.last;
    from = omega (arith, e.from);
    retried = λ j h h'. elim (Bool-cases (i == j)) [
      | inl same ↦ subst Retried ((==_iff i j).0 same) r
      | inr other ↦ e.retried j (ground (arith, other, h)) h'
    ];
    at_last = e.at_last;
  }

  module _ (awake : 0 < sleep) (sleeps : (i : ℕ) → elapsed i + sleep ≤ elapsed (suc i)) where
    retry-Ended :
        (fuel i : ℕ)
        → retry_timeout < fuel + elapsed i
        → (exit : Exit) × (retry sleep retry_timeout attempt elapsed cancelled (suc fuel) i
            ≡ some exit)
          × Ended i exit
    unfolding retry
    retry-Ended zero i h = elim (next i (attempt i) refl) [
      | inl (exit, l, e) ↦ (exit, e _, Ended-now i exit l)
      | inr (r, e) ↦ absurd (omega (arith, h, r.in_time, awake))
    ]
    retry-Ended (suc fuel) i h = elim (next i (attempt i) refl) [
      | inl (exit, l, e) ↦ (exit, e _, Ended-now i exit l)
      | inr (r, e) ↦
          let (exit, e', ended) = retry-Ended fuel (suc i) (omega (arith, h, awake, sleeps i)) in
          (exit, e _ ∙ e', Ended-later i exit r ended)
    ]

    -- Where each sleep lasts at least its time, and that is not zero, the attempts come to an end.
    -- All but the last of them fail, within the timeout and without an interruption. At the last one
    -- either the checks cannot run, and that is the error; or the exit code is that of the format,
    -- which is 0 unless no retry was asked for; or the checks fail, and another sleep would pass the
    -- timeout, or the context is done.
    pub validate_config-Ended :
        (exit : Exit) × (validate_config sleep retry_timeout attempt elapsed cancelled ≡ some exit)
        × Ended 1 exit
    unfolding validate_config
    validate_config-Ended = retry-Ended (suc retry_timeout) 1 (omega arith)
