-- ===== src/Scheduler/Waves/Idle.antt =====
-- What one pass and one wave change: how long the list of pending items is, what an idle pass
-- means, and what the workers store.
use mathlib.Core.List.{Permᴰ}
use mathlib.Core.List.Memᴰ as MemD
use syver.Prelude.{
  ℕ, ◌+◌, ◌≤◌, ◌<◌, String, str_eq, ◌≡◌, refl, ap, ◌∙◌, ◌≢◌, ◌⊎◌, inl, inr, true, false, List, [],
  ◌∷◌, length, Option, some, Memᴰ, All, Option-cases, Bool-cases, update, update_self, update_ne,
  arith, eq_iff,
}
use syver.Resource.Results.{Verdict, skip}
use syver.Scheduler.Build.{ScheduledResource}
use syver.Scheduler.Waves.{
  Status, World, wait, decide, Pass, pass, run_wave, wave_emissions, run_item, verdict_of,
}
use syver.Scheduler.Waves.Passing.{Fresh, Decision-cases, sources}

pub Memᴰ-Permᴰ :
    {xs ys : List ScheduledResource} (x : ScheduledResource) → Permᴰ xs ys → Memᴰ x xs → Memᴰ x ys
Memᴰ-Permᴰ x Permᴰ.nil m = m
Memᴰ-Permᴰ x (Permᴰ.cons e p) m = elim (MemD.cases_cons m) [
  | inl same ↦ Memᴰ.head (same ∙ e)
  | inr m' ↦ Memᴰ.tail (Memᴰ-Permᴰ x p m')
]
Memᴰ-Permᴰ x (Permᴰ.swap e e') m = elim (MemD.cases_cons m) [
  | inl same ↦ Memᴰ.tail (Memᴰ.head (same ∙ e))
  | inr m' ↦ elim (MemD.cases_cons m') [
    | inl same ↦ Memᴰ.head (same ∙ e')
    | inr m'' ↦ Memᴰ.tail (Memᴰ.tail m'')
  ]
]
Memᴰ-Permᴰ x (Permᴰ.trans p q) m = Memᴰ-Permᴰ x q (Memᴰ-Permᴰ x p m)

update_at :
    (status : Status) {k r : String} → k ≡ r → (v : Option Verdict) → update status k v r ≡ v
update_at status {k} e v = rw (← e) (update_self status k v)

module _ (world : World) where
  abbrev moved : Pass → ℕ
  moved p = length p.emitted + length p.runnable

  -- Each pending item is sent, run, kept for later, or had completed before.
  pub pass-length :
      (status : Status) (pending : List ScheduledResource)
      → moved (pass world status pending) + length (pass world status pending).next_pending
        ≤ length pending
  unfolding pass
  pass-length status [] = omega arith
  pass-length status (item ∷ rest) = elim (Option-cases (status item.ref)) [
    | inr (v, e) ↦ rw (e, pass) (omega (arith, pass-length status rest))
    | inl f ↦ elim (Decision-cases (decide world status item.deps)) [
      | inl w ↦ rw (f, w, pass) (omega (arith, pass-length status rest))
      | inr (inl w) ↦ rw (f, w, pass) (omega (arith, pass-length status rest))
      | inr (inr (reason, w)) ↦
          rw (f, w, pass) (omega (arith, pass-length (update status item.ref (some skip)) rest))
    ]
  ]

  pub pass-progressed :
      (status : Status) (pending : List ScheduledResource)
      → (pass world status pending).progressed ≡ true
      → 0 < length (pass world status pending).emitted
  unfolding pass
  pass-progressed status [] e = cc
  pass-progressed status (item ∷ rest) e = elim (Option-cases (status item.ref)) [
    | inr (v, f) ↦ rw (f, pass) (pass-progressed status rest (rw (f, pass) at e))
    | inl f ↦ elim (Decision-cases (decide world status item.deps)) [
      | inl w ↦ rw (f, w, pass) (pass-progressed status rest (rw (f, w, pass) at e))
      | inr (inl w) ↦ rw (f, w, pass) (pass-progressed status rest (rw (f, w, pass) at e))
      | inr (inr (reason, w)) ↦ rw (f, w, pass) (omega arith)
    ]
  ]

  -- A pass that neither skips nor finds an item to run has left every item waiting.
  pub pass_idle :
      (status : Status) (pending : List ScheduledResource)
      → Fresh status pending
      → (pass world status pending).progressed ≡ false
      → (pass world status pending).runnable ≡ []
      → All (λ item. decide world status item.deps ≡ wait) pending
  unfolding pass
  pass_idle status [] f e r = tt
  pass_idle status (item ∷ rest) (f, fs) e r =
      elim (Decision-cases (decide world status item.deps)) [
        | inl w ↦ (w, pass_idle status rest fs (rw (f, w, pass) at e) (rw (f, w, pass) at r))
        | inr (inl w) ↦ cc (rw (f, w, pass) at r)
        | inr (inr (reason, w)) ↦ cc (rw (f, w, pass) at e)
      ]

  -- What the workers leave for a reference: the verdict of one of the wave's items with that
  -- reference, or what stood there before.
  pub run_wave_at :
      (status : Status) (wave : List ScheduledResource) (r : String)
      → ((j : ScheduledResource) × Memᴰ j wave
          × (j.ref ≡ r)
          × (run_wave world status wave r ≡ some (verdict_of (run_item world j))))
        ⊎ (All (λ j. j.ref ≢ r) wave × (run_wave world status wave r ≡ status r))
  unfolding run_wave
  run_wave_at status [] r = inr (tt, refl)
  run_wave_at status (item ∷ items) r =
      elim (run_wave_at (update status item.ref (some (verdict_of (run_item world item)))) items
        r) [
          | inl (j, m, e, v) ↦ inl (j, Memᴰ.tail m, e, v)
          | inr (others, v) ↦ elim (Bool-cases (str_eq item.ref r)) [
            | inl same ↦
                let same_ref : item.ref ≡ r = (eq_iff _ _).0 same in
                inl (item, Memᴰ.head refl, same_ref, v ∙ update_at status same_ref _)
            | inr differs ↦
                let ne : item.ref ≢ r = λ e. cc ((eq_iff _ _).1 e) in
                inr ((ne, others), v ∙ update_ne status item.ref r _ ne)
          ]
        ]

  pub wave-sources : (wave : List ScheduledResource) → sources (wave_emissions world wave) ≡ wave
  unfolding wave_emissions
  wave-sources [] = refl
  wave-sources (item ∷ items) = ap (λ xs. item ∷ xs) (wave-sources items)
