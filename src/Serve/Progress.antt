-- ===== src/Serve/Progress.antt =====
-- The lock of fillCache never keeps a request from its answer.
use syver.Prelude.{
  ℕ, suc, ◌≤◌, ◌≡◌, ◌≢◌, refl, ◌∙◌, ap, ◌⊎◌, inl, inr, Bool, true, List, [], ◌∷◌, Option, none,
  some, Option-cases, All, length, arith,
}
use syver.Serve.Requests.{
  Groups, Phase, arrived, waiting, holding, sweeping, answered, Health, set_phase, cached_results,
  take_lock, look, look_again, Event, step, advance_from, advance, happen, run_events, cold,
}
use syver.Serve.Sweeps.{inside, set_phase-cases, set_phase_self, run_events-Mutex, cold-Mutex}

-- The step of another request leaves one where it stands.
set_phase_other :
    (phase : ℕ → Phase) (t u : ℕ) (p : Phase) → t ≢ u → set_phase phase t p u ≡ phase u
set_phase_other phase t u p n = elim (set_phase-cases phase t p u) [
  | inl (same, e) ↦ absurd (n same)
  | inr (other, e) ↦ e
]

module _ (enabled : Bool) (sweep : ℕ → Groups) where
  -- At most `n` further steps, of the requests `u` and `t` alone, answer `t`.
  abbrev pub AnsweredWithin : ℕ → ℕ → ℕ → Health → Type 0
  AnsweredWithin n u t h =
      (more : List Event) × All (λ e. (e ≡ step t) ⊎ (e ≡ step u)) more
      × (length more ≤ n)
      × (groups : Groups) × ((run_events enabled sweep more h).phase t ≡ answered groups)

  module _ (u t : ℕ) where
    -- What a step leads to is a step away.
    after_own :
        (n : ℕ) (h h' : Health)
        → advance enabled sweep t h ≡ h'
        → AnsweredWithin n u t h'
        → AnsweredWithin (suc n) u t h
    unfolding run_events happen
    after_own n h h' e (more, own, short, groups, done) = (
      step t ∷ more,
      (inl refl, own),
      omega (arith, short),
      groups,
      ap (λ x. (run_events enabled sweep more x).phase t) e ∙ done,
    )

    after_other :
        (n : ℕ) (h h' : Health)
        → advance enabled sweep u h ≡ h'
        → AnsweredWithin n u t h'
        → AnsweredWithin (suc n) u t h
    unfolding run_events happen
    after_other n h h' e (more, own, short, groups, done) = (
      step u ∷ more,
      (inr refl, own),
      omega (arith, short),
      groups,
      ap (λ x. (run_events enabled sweep more x).phase t) e ∙ done,
    )

    at_most : (n m : ℕ) (h : Health) → n ≤ m → AnsweredWithin n u t h → AnsweredWithin m u t h
    at_most n m h le (more, own, short, groups, done) =
        (more, own, omega (arith, le, short), groups, done)

    from_answered :
        (n : ℕ) (h : Health) (groups : Groups)
        → h.phase t ≡ answered groups
        → AnsweredWithin n u t h
    unfolding run_events
    from_answered n h groups e = ([], tt, omega arith, groups, e)

    from_sweeping : (h : Health) (k : ℕ) → h.phase t ≡ sweeping k → AnsweredWithin 1 u t h
    unfolding advance advance_from
    from_sweeping h k e =
        after_own 0 h _ (ap (advance_from enabled sweep t h) e)
          (from_answered 0 _ (sweep k) (set_phase_self h.phase t (answered (sweep k))))

    looked_again :
        (h : Health) (found : Option Groups) → AnsweredWithin 1 u t (look_again t h found)
    unfolding look_again
    looked_again h none = from_sweeping _ h.sweeps (set_phase_self h.phase t (sweeping h.sweeps))
    looked_again h (some groups) =
        from_answered 1 _ groups (set_phase_self h.phase t (answered groups))

    from_holding : (h : Health) → h.phase t ≡ holding → AnsweredWithin 2 u t h
    unfolding advance advance_from
    from_holding h e =
        after_own 1 h _ (ap (advance_from enabled sweep t h) e)
          (looked_again h (cached_results enabled h.cache))

    took_lock : (h : Health) → AnsweredWithin 2 u t (take_lock t h none)
    unfolding take_lock
    took_lock h = from_holding _ (set_phase_self h.phase t holding)

    -- The lock is free.
    from_free : (h : Health) → h.phase t ≡ waiting → h.lock ≡ none → AnsweredWithin 3 u t h
    unfolding advance advance_from
    from_free h e free =
        after_own 2 h (take_lock t h none)
          (ap (advance_from enabled sweep t h) e ∙ ap (take_lock t h) free) (took_lock h)

    -- The lock is held by `u`, who stands at the given phase.
    from_swept :
        (h : Health) (k : ℕ)
        → u ≢ t
        → h.phase t ≡ waiting
        → h.phase u ≡ sweeping k
        → AnsweredWithin 4 u t h
    unfolding advance advance_from
    from_swept h k n e held =
        after_other 3 h _ (ap (advance_from enabled sweep u h) held)
          (from_free _ (set_phase_other h.phase u t (answered (sweep k)) n ∙ e) refl)

    held_look :
        (h : Health) (found : Option Groups)
        → u ≢ t
        → h.phase t ≡ waiting
        → AnsweredWithin 4 u t (look_again u h found)
    unfolding look_again
    held_look h none n e =
        from_swept _ h.sweeps n (set_phase_other h.phase u t (sweeping h.sweeps) n ∙ e)
          (set_phase_self h.phase u (sweeping h.sweeps))
    held_look h (some groups) n e =
        at_most 3 4 _ (omega arith)
          (from_free _ (set_phase_other h.phase u t (answered groups) n ∙ e) refl)

    from_held :
        (h : Health) (q : Phase)
        → u ≢ t
        → h.phase t ≡ waiting
        → h.phase u ≡ q
        → inside q ≡ true
        → AnsweredWithin 5 u t h
    unfolding advance advance_from
    from_held h arrived n e held i = cc
    from_held h waiting n e held i = cc
    from_held h (answered groups) n e held i = cc
    from_held h (sweeping k) n e held i = at_most 4 5 h (omega arith) (from_swept h k n e held)
    from_held h holding n e held i =
        after_other 4 h _ (ap (advance_from enabled sweep u h) held)
          (held_look h (cached_results enabled h.cache) n e)

    looked :
        (h : Health) (found : Option Groups)
        → h.phase t ≡ arrived
        → (h.lock ≡ none) ⊎ (inside (h.phase u) ≡ true)
        → AnsweredWithin 5 u t (look t h found)
    unfolding look
    looked h none e (inl free) =
        at_most 3 5 _ (omega arith) (from_free _ (set_phase_self h.phase t waiting) free)
    looked h none e (inr i) =
        from_held _ (h.phase u) (λ same. cc (same, e, i)) (set_phase_self h.phase t waiting)
          (set_phase_other h.phase t u waiting (λ same. cc (same, e, i))) i
    looked h (some groups) e l =
        from_answered 5 _ groups (set_phase_self h.phase t (answered groups))

    from_phase :
        (h : Health) (q : Phase)
        → h.phase t ≡ q
        → (h.lock ≡ none) ⊎ (inside (h.phase u) ≡ true)
        → AnsweredWithin 6 u t h
    unfolding advance advance_from
    from_phase h arrived e l =
        after_own 5 h _ (ap (advance_from enabled sweep t h) e)
          (looked h (cached_results enabled h.cache) e l)
    from_phase h waiting e (inl free) = at_most 3 6 h (omega arith) (from_free h e free)
    from_phase h waiting e (inr i) =
        at_most 5 6 h (omega arith) (from_held h (h.phase u) (λ same. cc (same, e, i)) e refl i)
    from_phase h holding e l = at_most 2 6 h (omega arith) (from_holding h e)
    from_phase h (sweeping k) e l = at_most 1 6 h (omega arith) (from_sweeping h k e)
    from_phase h (answered groups) e l = from_answered 6 h groups e

  -- No request is ever locked out: in any state that steps and expiries lead to from a cold start,
  -- with the cache enabled or not, at most six further steps answer any given request, all of them
  -- its own or, where the lock is held, those of the request that holds it.
  pub run_events-AnsweredWithin :
      (events : List Event) (t : ℕ)
      → (u : ℕ) × ((u ≡ t) ⊎ ((run_events enabled sweep events cold).lock ≡ some u))
        × AnsweredWithin 6 u t (run_events enabled sweep events cold)
  run_events-AnsweredWithin events t =
      let h = run_events enabled sweep events cold in
      elim (Option-cases h.lock) [
        | inl free ↦ (t, inl refl, from_phase t t h (h.phase t) refl (inl free))
        | inr (u, held) ↦ (
          u,
          inr held,
          from_phase u t h (h.phase t) refl
              (inr ((run_events-Mutex enabled sweep events cold cold-Mutex u).1 held)),
        )
      ]
