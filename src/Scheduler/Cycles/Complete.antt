-- ===== src/Scheduler/Cycles/Complete.antt =====
-- The reference of a cycle error is on a cycle.
use syver.Prelude.{
  ℕ, zero, suc, String, ◌≡◌, refl, sym, ◌∙◌, inl, inr, List, [], ◌∷◌, Memᴰ, update, Bool-cases,
  str_eq, arith, eq_iff, subst,
}
use syver.Scheduler.Cycles.{
  Mark, visiting, Outcome, done, cycle, no_fuel, visit, visit_deps, finish, Dep, Plus, edge, more,
}
use syver.Scheduler.Cycles.Marks.{
  visit-Visits, visit_fresh, visit-visiting, visit-visited, Mark-cases, Outcome-cases,
}

module _ (deps_of : String → List String) where
  -- Every reference that is being visited has `ref` below it.
  abbrev pub Leads : (String → Mark) → String → Type 0
  Leads state ref = (u : String) → state u ≡ visiting → Plus deps_of u ref

  Leads-Dep :
      (state : String → Mark) {ref : String} (dep : String)
      → Leads state ref
      → Dep deps_of dep ref
      → Leads (update state ref visiting) dep
  unfolding update
  Leads-Dep state {ref} dep h m u e = elim (Bool-cases (str_eq ref u)) [
    | inl same ↦ subst (λ x. Plus deps_of x dep) ((eq_iff ref u).0 same) (edge m)
    | inr other ↦ more (h u (ground (arith, eq_iff ref u))) m
  ]

  abbrev Reports : ℕ → Type 0
  Reports fuel =
      (ref c : String) (state : String → Mark)
      → visit deps_of fuel ref state ≡ cycle c
      → Leads state ref
      → Plus deps_of c c

  finish-eq-cycle : {c : String} (ref : String) (o : Outcome) → finish ref o ≡ cycle c → o ≡ cycle c
  unfolding finish
  finish-eq-cycle ref (done mid) e = cc
  finish-eq-cycle ref (cycle c) e = e
  finish-eq-cycle ref no_fuel e = cc

  pub visit_deps_cycle :
      (fuel : ℕ)
      → Reports fuel
      → (c : String) (deps : List String) (state : String → Mark)
      → visit_deps (visit deps_of fuel) deps state ≡ cycle c
      → ((d : String) → Memᴰ d deps → Leads state d)
      → Plus deps_of c c
  unfolding visit_deps
  visit_deps_cycle fuel ih c [] state e h = cc
  visit_deps_cycle fuel ih c (dep ∷ deps) state e h =
      elim (Outcome-cases (visit deps_of fuel dep state)) [
        | inl (mid, p) ↦
            let (ext, _) = visit-Visits deps_of fuel dep state mid p in
            visit_deps_cycle fuel ih c deps mid (rw (p, visit_deps) at e)
              (λ d m u v. h d (Memᴰ.tail m) u (ext.no_new_visiting u v))
        | inr (inl (c', p)) ↦
            let same : cycle c' ≡ cycle c = rw (p, visit_deps) at e in
            ih dep c state (p ∙ same) (h dep (Memᴰ.head refl))
        | inr (inr p) ↦ cc (rw (p, visit_deps) at e)
      ]

  pub visit_cycle : (fuel : ℕ) → Reports fuel
  unfolding visit
  visit_cycle zero ref c state e h = cc
  visit_cycle (suc fuel) ref c state e h = elim (Mark-cases (state ref)) [
    | inl p ↦
        visit_deps_cycle fuel (visit_cycle fuel) c (deps_of ref) _
          (finish-eq-cycle ref _ (sym (visit_fresh deps_of fuel ref state p) ∙ e))
          (λ d m. Leads-Dep state d h m)
    | inr (inl p) ↦
        let same : cycle ref ≡ cycle c = sym (visit-visiting deps_of fuel ref state p) ∙ e in
        let ref_c : ref ≡ c = cc in subst (λ x. Plus deps_of x x) ref_c (h ref p)
    | inr (inr p) ↦ cc (visit-visited deps_of fuel ref state p)
  ]
