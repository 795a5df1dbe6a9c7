-- ===== src/Serve/Bursts.antt =====
-- A burst of requests on a cold cache makes one sweep.
use syver.Prelude.{
  ℕ, ◌≡◌, ◌≢◌, refl, sym, subst, ◌∙◌, ap, inl, inr, true, false, List, [], ◌∷◌, Option, none, some,
  Bool-cases, arith, ◌≤◌,
}
use syver.Serve.Requests.{
  Groups, Phase, arrived, waiting, holding, sweeping, answered, Health, set_phase, cached_results,
  take_lock, look, look_again, Event, step, advance_from, advance, happen, run_events, cold,
}
use syver.Serve.Sweeps.{
  inside, Mutex, set_phase-cases, set_phase_self, cold-Mutex, advance_from-Mutex,
}

-- What holds of the requests in a burst, at the three stages of its one sweep: not begun, under way,
-- and stored.
module _ (first : Groups) where
  abbrev Before : Phase → Type 0
  Before (sweeping n) = ⊥
  Before (answered groups) = ⊥
  Before _ = Unit {0}

  abbrev During : Phase → Type 0
  During (answered groups) = ⊥
  During (sweeping n) = n ≡ 0
  During _ = Unit {0}

  abbrev After : Phase → Type 0
  After (sweeping n) = ⊥
  After (answered groups) = groups ≡ first
  After _ = Unit {0}

  pub data Stage (h : Health) : Type 0 where
    before : h.cache ≡ none → h.sweeps ≡ 0 → ((u : ℕ) → Before (h.phase u)) → Stage h
    during :
        (t : ℕ)
        → h.cache ≡ none
        → h.sweeps ≡ 1
        → h.phase t ≡ sweeping 0
        → ((u : ℕ) → During (h.phase u))
        → Stage h
    after : h.cache ≡ some first → h.sweeps ≡ 1 → ((u : ℕ) → After (h.phase u)) → Stage h

  abbrev Burst : Health → Type 0
  Burst h = Mutex h.lock h.phase × Stage h

set_all :
    (P : Phase → Type 0) (phase : ℕ → Phase) (t : ℕ) (p : Phase)
    → P p
    → ((u : ℕ) → P (phase u))
    → (u : ℕ) → P (set_phase phase t p u)
set_all P phase t p hp h u = elim (set_phase-cases phase t p u) [
  | inl (same, e) ↦ subst P (sym e) hp
  | inr (other, e) ↦ subst P (sym e) (h u)
]

-- The one who sweeps is not moved by the step of a request that does not sweep.
set_phase_other :
    (phase : ℕ → Phase) (t t₀ : ℕ) (p : Phase)
    → phase t ≢ sweeping 0
    → phase t₀ ≡ sweeping 0
    → set_phase phase t p t₀ ≡ sweeping 0
set_phase_other phase t t₀ p h e = elim (set_phase-cases phase t p t₀) [
  | inl (same, _) ↦ absurd (h (ap phase same ∙ e))
  | inr (other, kept) ↦ kept ∙ e
]

Before-During : (first : Groups) (p : Phase) → Before first p → During first p
Before-During first arrived h = tt
Before-During first waiting h = tt
Before-During first holding h = tt
Before-During first (sweeping n) h = elim h [ ]
Before-During first (answered groups) h = h

During-After : (first : Groups) (p : Phase) → inside p ≡ false → During first p → After first p
During-After first arrived o h = tt
During-After first waiting o h = tt
During-After first holding o h = tt
During-After first (sweeping n) o h = cc
During-After first (answered groups) o h = elim h [ ]

module _ (first : Groups) (t : ℕ) (h : Health) where
  look-Stage :
      (found : Option Groups)
      → h.cache ≡ found
      → h.phase t ≡ arrived
      → Stage first h
      → Stage first (look t h found)
  unfolding look
  look-Stage none c e (Stage.before c' n all) =
      Stage.before c n (set_all (Before first) h.phase t waiting tt all)
  look-Stage none c e (Stage.during t₀ c' n at_t₀ all) =
      Stage.during t₀ c n (set_phase_other h.phase t t₀ waiting (λ x. cc) at_t₀)
        (set_all (During first) h.phase t waiting tt all)
  look-Stage none c e (Stage.after c' n all) = cc
  look-Stage (some groups) c e (Stage.before c' n all) = cc
  look-Stage (some groups) c e (Stage.during t₀ c' n at_t₀ all) = cc
  look-Stage (some groups) c e (Stage.after c' n all) =
      Stage.after c' n (set_all (After first) h.phase t (answered groups) (cc) all)

  take_lock-Stage :
      (lock : Option ℕ) → h.phase t ≡ waiting → Stage first h → Stage first (take_lock t h lock)
  unfolding take_lock
  take_lock-Stage (some u) e s = s
  take_lock-Stage none e (Stage.before c n all) =
      Stage.before c n (set_all (Before first) h.phase t holding tt all)
  take_lock-Stage none e (Stage.during t₀ c n at_t₀ all) =
      Stage.during t₀ c n (set_phase_other h.phase t t₀ holding (λ x. cc) at_t₀)
        (set_all (During first) h.phase t holding tt all)
  take_lock-Stage none e (Stage.after c n all) =
      Stage.after c n (set_all (After first) h.phase t holding tt all)

  look_again-Stage :
      (found : Option Groups)
      → h.cache ≡ found
      → h.phase t ≡ holding
      → Mutex h.lock h.phase
      → Stage first h
      → Stage first (look_again t h found)
  unfolding look_again
  look_again-Stage none c e m (Stage.before c' n all) =
      Stage.during t c (omega (arith, n)) (rw n (set_phase_self h.phase t (sweeping 0))) (
        set_all (During first) h.phase t (sweeping h.sweeps) n
          (λ u. Before-During first (h.phase u) (all u)))
  look_again-Stage none c e m (Stage.during t₀ c' n at_t₀ all) =
      let mine = (m t).0 (rw e refl) in
      let other = (m t₀).0 (rw at_t₀ refl) in let same : t ≡ t₀ = cc in cc
  look_again-Stage none c e m (Stage.after c' n all) = cc
  look_again-Stage (some groups) c e m (Stage.before c' n all) = cc
  look_again-Stage (some groups) c e m (Stage.during t₀ c' n at_t₀ all) = cc
  look_again-Stage (some groups) c e m (Stage.after c' n all) =
      Stage.after c' n (set_all (After first) h.phase t (answered groups) (cc) all)

-- The steps of requests, with no expiry between them.
abbrev pub steps_of : List ℕ → List Event
steps_of [] = []
steps_of (t ∷ ts) = step t ∷ steps_of ts

module _ (sweep : ℕ → Groups) where
  stored :
      (t : ℕ) (h : Health) (k : ℕ)
      → h.phase t ≡ sweeping k
      → Mutex h.lock h.phase
      → ((u : ℕ) → During (sweep 0) (h.phase u))
      → (u : ℕ) → After (sweep 0) (set_phase h.phase t (answered (sweep k)) u)
  stored t h k e m all u = elim (set_phase-cases h.phase t (answered (sweep k)) u) [
    | inl (same, at_u) ↦
        subst (After (sweep 0)) (sym at_u) (ap sweep (subst (During (sweep 0)) e (all t)))
    | inr (other, at_u) ↦
        subst (After (sweep 0)) (sym at_u)
          (During-After (sweep 0) (h.phase u) (outside other) (all u))
  ]
    where
      outside : t ≢ u → inside (h.phase u) ≡ false
      outside other = elim (Bool-cases (inside (h.phase u))) [
        | inl within ↦
            let mine = (m t).0 (rw e refl) in let its = (m u).0 within in absurd (other (cc))
        | inr out ↦ out
      ]

  sweep-Stage :
      (t : ℕ) (h : Health) (k : ℕ)
      → h.phase t ≡ sweeping k
      → Mutex h.lock h.phase
      → Stage (sweep 0) h
      → Stage (sweep 0) (advance_from true sweep t h (sweeping k))
  unfolding advance_from
  sweep-Stage t h k e m (Stage.before c n all) = elim (subst (Before (sweep 0)) e (all t)) [ ]
  sweep-Stage t h k e m (Stage.during t₀ c n at_t₀ all) =
      Stage.after (ap (λ i. some (sweep i)) (subst (During (sweep 0)) e (all t))) n
        (stored t h k e m all)
  sweep-Stage t h k e m (Stage.after c n all) = elim (subst (After (sweep 0)) e (all t)) [ ]

  advance_from-Stage :
      (t : ℕ) (h : Health) (p : Phase)
      → h.phase t ≡ p
      → Mutex h.lock h.phase
      → Stage (sweep 0) h
      → Stage (sweep 0) (advance_from true sweep t h p)
  unfolding advance_from cached_results
  advance_from-Stage t h arrived e m s = look-Stage (sweep 0) t h h.cache refl e s
  advance_from-Stage t h waiting e m s = take_lock-Stage (sweep 0) t h h.lock e s
  advance_from-Stage t h holding e m s = look_again-Stage (sweep 0) t h h.cache refl e m s
  advance_from-Stage t h (sweeping k) e m s = sweep-Stage t h k e m s
  advance_from-Stage t h (answered groups) e m s = s

  run_events-Burst :
      (ts : List ℕ) (h : Health)
      → Burst (sweep 0) h
      → Burst (sweep 0) (run_events true sweep (steps_of ts) h)
  unfolding run_events happen advance
  run_events-Burst [] h b = b
  run_events-Burst (t ∷ ts) h (m, s) = run_events-Burst ts (advance true sweep t h) (
    advance_from-Mutex true sweep t h (h.phase t) refl m,
    advance_from-Stage t h (h.phase t) refl m s,
  )

  Stage-few :
      (h : Health)
      → Stage (sweep 0) h
      → (h.sweeps ≤ 1)
        × ((t : ℕ) (groups : Groups) → h.phase t ≡ answered groups → groups ≡ sweep 0)
  Stage-few h (Stage.before c n all) =
      (omega (arith, n), λ t groups e. elim (subst (Before (sweep 0)) e (all t)) [ ])
  Stage-few h (Stage.during t₀ c n at_t₀ all) =
      (omega (arith, n), λ t groups e. elim (subst (During (sweep 0)) e (all t)) [ ])
  Stage-few h (Stage.after c n all) =
      (omega (arith, n), λ t groups e. subst (After (sweep 0)) e (all t))

  -- With the cache enabled and empty, requests that come side by side run the checks once: however
  -- their steps are interleaved, as long as the entry does not expire there is at most one sweep,
  -- and each request that is answered gets the results of that one.
  pub run_events-one_sweep :
      (ts : List ℕ)
      → ((run_events true sweep (steps_of ts) cold).sweeps ≤ 1)
        × ((t : ℕ) (groups : Groups)
            → (run_events true sweep (steps_of ts) cold).phase t ≡ answered groups
            → groups ≡ sweep 0)
  run_events-one_sweep ts =
      let (_, s) = run_events-Burst ts cold (cold-Mutex, Stage.before refl refl (λ u. tt)) in
      Stage-few (run_events true sweep (steps_of ts) cold) s
