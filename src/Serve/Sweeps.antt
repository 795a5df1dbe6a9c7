-- ===== src/Serve/Sweeps.antt =====
-- One sweep at a time, and one for a burst of requests.
use syver.Prelude.{
  ℕ, ◌≡◌, ◌≢◌, refl, sym, ◌∙◌, ap, ◌↔◌, ◌⊎◌, inl, inr, Bool, true, false, List, [], ◌∷◌, Option,
  none, some, ◌==◌, ==_iff, Bool-cases,
}
use syver.Serve.Requests.{
  Groups, Phase, arrived, waiting, holding, sweeping, answered, Health, set_phase, cached_results,
  take_lock, look, look_again, Event, step, expire, advance_from, advance, happen, run_events, cold,
}

-- Whether a request is between `Lock` and `Unlock`.
abbrev pub inside : Phase → Bool
inside holding = true
inside (sweeping n) = true
inside _ = false

-- The requests inside are those that hold the lock.
abbrev pub Mutex : Option ℕ → (ℕ → Phase) → Type 0
Mutex lock phase = (u : ℕ) → (inside (phase u) ≡ true) ↔ (lock ≡ some u)

module _ (phase : ℕ → Phase) (t : ℕ) (p : Phase) where
  -- After a step of `t`, a request is `t` at its new phase, or stands where it stood.
  pub set_phase-cases :
      (u : ℕ)
      → ((t ≡ u) × (set_phase phase t p u ≡ p)) ⊎ ((t ≢ u) × (set_phase phase t p u ≡ phase u))
  unfolding set_phase
  set_phase-cases u = elim (Bool-cases (t == u)) [
    | inl same ↦ inl ((==_iff t u).0 same, rw same refl)
    | inr other ↦ inr ((λ e. cc ((==_iff t u).1 e, other)), rw other refl)
  ]

  Mutex-keep :
      {lock : Option ℕ}
      → inside p ≡ inside (phase t)
      → Mutex lock phase
      → Mutex lock (set_phase phase t p)
  Mutex-keep h m u = elim (set_phase-cases u) [
    | inl (same, e) ↦
        rw (e, h) ((λ x. (m t).0 x ∙ ap some same), λ x. (m t).1 (x ∙ ap some (sym same)))
    | inr (other, e) ↦ rw e (m u)
  ]

  Mutex-enter : inside p ≡ true → Mutex none phase → Mutex (some t) (set_phase phase t p)
  Mutex-enter h m u = elim (set_phase-cases u) [
    | inl (same, e) ↦ rw e ((λ x. cc), (λ x. h))
    | inr (other, e) ↦ rw e ((λ x. cc ((m u).0 x)), λ x. absurd (other (cc x)))
  ]

  Mutex-leave : inside p ≡ false → Mutex (some t) phase → Mutex none (set_phase phase t p)
  Mutex-leave h m u = elim (set_phase-cases u) [
    | inl (same, e) ↦ rw e ((λ x. cc), (λ x. cc))
    | inr (other, e) ↦ rw e ((λ x. absurd (other (cc ((m u).0 x)))), (λ x. cc))
  ]

pub set_phase_self : (phase : ℕ → Phase) (t : ℕ) (p : Phase) → set_phase phase t p t ≡ p
set_phase_self phase t p = elim (set_phase-cases phase t p t) [
  | inl (same, e) ↦ e
  | inr (other, e) ↦ absurd (other refl)
]

look-Mutex :
    (t : ℕ) (h : Health) (found : Option Groups)
    → h.phase t ≡ arrived
    → Mutex h.lock h.phase
    → Mutex (look t h found).lock (look t h found).phase
unfolding look
look-Mutex t h none e m = Mutex-keep h.phase t waiting (rw e refl) m
look-Mutex t h (some groups) e m = Mutex-keep h.phase t (answered groups) (rw e refl) m

look_again-Mutex :
    (t : ℕ) (h : Health) (found : Option Groups)
    → h.phase t ≡ holding
    → Mutex h.lock h.phase
    → Mutex (look_again t h found).lock (look_again t h found).phase
unfolding look_again
look_again-Mutex t h none e m = Mutex-keep h.phase t (sweeping h.sweeps) (rw e refl) m
look_again-Mutex t h (some groups) e m =
    Mutex-leave h.phase t (answered groups) refl (rw ((m t).0 (rw e refl)) at m)

take_lock-Mutex :
    (t : ℕ) (h : Health) (lock : Option ℕ)
    → h.lock ≡ lock
    → Mutex h.lock h.phase
    → Mutex (take_lock t h lock).lock (take_lock t h lock).phase
unfolding take_lock
take_lock-Mutex t h none free m = Mutex-enter h.phase t holding refl (rw free at m)
take_lock-Mutex t h (some u) held m = m

pub cold-Mutex : Mutex cold.lock cold.phase
cold-Mutex u = ((λ e. cc), (λ e. cc))

module _ (enabled : Bool) (sweep : ℕ → Groups) where
  -- Whatever the requests do, and whenever the entry expires, the lock is held by those inside.
  pub advance_from-Mutex :
      (t : ℕ) (h : Health) (p : Phase)
      → h.phase t ≡ p
      → Mutex h.lock h.phase
      → Mutex (advance_from enabled sweep t h p).lock (advance_from enabled sweep t h p).phase
  unfolding advance_from
  advance_from-Mutex t h arrived e m = look-Mutex t h (cached_results enabled h.cache) e m
  advance_from-Mutex t h waiting e m = take_lock-Mutex t h h.lock refl m
  advance_from-Mutex t h holding e m = look_again-Mutex t h (cached_results enabled h.cache) e m
  advance_from-Mutex t h (sweeping n) e m =
      let mine : Mutex (some t) h.phase = rw ((m t).0 (rw e refl)) at m in
      Mutex-leave h.phase t (answered (sweep n)) refl mine
  advance_from-Mutex t h (answered groups) e m = m

  happen-Mutex :
      (event : Event) (h : Health)
      → Mutex h.lock h.phase
      → Mutex (happen enabled sweep event h).lock (happen enabled sweep event h).phase
  unfolding happen advance
  happen-Mutex (step t) h m = advance_from-Mutex t h (h.phase t) refl m
  happen-Mutex expire h m = m

  pub run_events-Mutex :
      (es : List Event) (h : Health)
      → Mutex h.lock h.phase
      → Mutex (run_events enabled sweep es h).lock (run_events enabled sweep es h).phase
  unfolding run_events
  run_events-Mutex [] h m = m
  run_events-Mutex (e ∷ es) h m =
      run_events-Mutex es (happen enabled sweep e h) (happen-Mutex e h m)

  -- At most one request at a time is behind the lock, where the sweeps run: in any sequence of steps
  -- of the requests and of expiries of the stored entry, from a cold start.
  pub run_events-one_inside :
      (events : List Event) (t u : ℕ)
      → inside ((run_events enabled sweep events cold).phase t) ≡ true
      → inside ((run_events enabled sweep events cold).phase u) ≡ true
      → t ≡ u
  run_events-one_inside events t u ht hu =
      let m = run_events-Mutex events cold cold-Mutex in
      let at_t = (m t).0 ht in let at_u = (m u).0 hu in cc
