-- ===== src/Scheduler/Cycles/Sound.antt =====
-- A cycle is reported exactly when there is one.
use mathlib.Core.WellFounded.{Acc}
use syver.Prelude.{
  ℕ, zero, suc, String, ◌≡◌, refl, sym, Bool-cases, str_eq, ◌⊎◌, inl, inr, List, [], ◌∷◌, All-mem,
  update, arith, eq_iff, subst,
}
use syver.Scheduler.Cycles.{Mark, visiting, visited, done, visit, visit_deps, Dep, Plus, edge, more}
use syver.Scheduler.Cycles.Marks.{
  visit_deps-eq-done, visit-eq-done, visit_deps-Extends, visit-Visits,
}

module _ (deps_of : String → List String) where
  -- No chain of prerequisites goes down from the reference for ever.
  abbrev pub Grounded : String → Type 0
  Grounded = Acc (Dep deps_of)

  -- Every visited reference is grounded.
  abbrev pub VisitedGrounded : (String → Mark) → Type 0
  VisitedGrounded state = (r : String) → state r ≡ visited → Grounded r

  mark-VisitedGrounded :
      (state : String → Mark) (ref : String)
      → VisitedGrounded state
      → VisitedGrounded (update state ref visiting)
  unfolding update
  mark-VisitedGrounded state ref h r e = h r (ground (arith, eq_iff ref r))

  finish-VisitedGrounded :
      (state : String → Mark) (ref : String)
      → VisitedGrounded state
      → Grounded ref
      → VisitedGrounded (update state ref visited)
  unfolding update
  finish-VisitedGrounded state ref h g r e = elim (Bool-cases (str_eq ref r)) [
    | inl same ↦ subst Grounded ((eq_iff ref r).0 same) g
    | inr other ↦ h r (ground (arith, eq_iff ref r))
  ]

  pub visit_deps-VisitedGrounded :
      (fuel : ℕ)
      → ((ref : String) (state after : String → Mark)
          → visit deps_of fuel ref state ≡ done after
          → VisitedGrounded state
          → VisitedGrounded after)
      → (deps : List String) (state after : String → Mark)
      → visit_deps (visit deps_of fuel) deps state ≡ done after
      → VisitedGrounded state
      → VisitedGrounded after
  unfolding visit_deps
  visit_deps-VisitedGrounded fuel ih [] state after e h =
      let same : state ≡ after = cc in rw (← same) h
  visit_deps-VisitedGrounded fuel ih (dep ∷ deps) state after e h =
      let (mid, p, q) = visit_deps-eq-done (visit deps_of fuel) dep deps state e in
      visit_deps-VisitedGrounded fuel ih deps mid after q (ih dep state mid p h)

  pub visit-VisitedGrounded :
      (fuel : ℕ) (ref : String) (state after : String → Mark)
      → visit deps_of fuel ref state ≡ done after
      → VisitedGrounded state
      → VisitedGrounded after
  unfolding visit
  visit-VisitedGrounded zero ref state after e h = cc
  visit-VisitedGrounded (suc fuel) ref state after e h =
      elim (visit-eq-done deps_of fuel ref state e) [
        | inl (_, same) ↦ rw same h
        | inr (mid, _, p, q) ↦
            let (_, all) = visit_deps-Extends _ (visit-Visits deps_of fuel) _ _ mid p in
            let good =
              visit_deps-VisitedGrounded fuel (visit-VisitedGrounded fuel) _ _ mid p
                (mark-VisitedGrounded state ref h) in
            rw q (
              finish-VisitedGrounded mid ref good
                (Acc.intro ref (λ d m. good d (All-mem (λ d'. mid d' ≡ visited) m all))))
      ]

  -- A grounded reference is on no cycle.
  first_edge :
      {u w : String}
      → Plus deps_of u w
      → (d : String) × Dep deps_of d u × ((d ≡ w) ⊎ Plus deps_of d w)
  first_edge (edge {dep} m) = (dep, m, inl refl)
  first_edge (more {dep} p m) =
      let (d, n, rest) = first_edge p in
      (d, n, inr (elim rest [ inl same ↦ edge (rw (same) m) | inr q ↦ more q m ]))

  pub Grounded-acyclic : {ref : String} → Grounded ref → ¬ Plus deps_of ref ref
  Grounded-acyclic (Acc.intro ref below) p =
      let (d, m, rest) = first_edge p in
      Grounded-acyclic (below d m) (elim rest [
        | inl same ↦ edge (subst (λ x. Dep deps_of d x) (sym same) m)
        | inr q ↦ more q m
      ])
