-- ===== src/Scheduler/Cycles/Marks.antt =====
-- How one call of `visit` changes the marks.
use syver.Prelude.{
  ℕ, zero, suc, String, ◌≡◌, refl, sym, ◌∙◌, ◌⊎◌, inl, inr, List, [], ◌∷◌, All, update, update_self,
  arith, eq_iff,
}
use syver.Scheduler.Cycles.{
  Mark, unvisited, visiting, visited, Outcome, done, cycle, no_fuel, visit, visit_deps, finish,
}

pub Mark-cases : (m : Mark) → (m ≡ unvisited) ⊎ ((m ≡ visiting) ⊎ (m ≡ visited))
Mark-cases unvisited = inl refl
Mark-cases visiting = inr (inl refl)
Mark-cases visited = inr (inr refl)

pub Outcome-cases :
    (o : Outcome)
    → ((s : String → Mark) × (o ≡ done s)) ⊎ (((c : String) × (o ≡ cycle c)) ⊎ (o ≡ no_fuel))
Outcome-cases (done s) = inl (s, refl)
Outcome-cases (cycle c) = inr (inl (c, refl))
Outcome-cases no_fuel = inr (inr refl)

-- Marks only progress, and what is being visited is the same before and after.
pub record Extends (before after : String → Mark) : Type 0 where
  pub keeps_visited : (r : String) → before r ≡ visited → after r ≡ visited
  pub keeps_visiting : (r : String) → before r ≡ visiting → after r ≡ visiting
  pub no_new_visiting : (r : String) → after r ≡ visiting → before r ≡ visiting

pub Extends-refl : (state : String → Mark) → Extends state state
Extends-refl state = record {
  keeps_visited = λ r h. h;
  keeps_visiting = λ r h. h;
  no_new_visiting = λ r h. h;
}

pub Extends-trans : {a b c : String → Mark} → Extends a b → Extends b c → Extends a c
Extends-trans p q = record {
  keeps_visited = λ r h. q.keeps_visited r (p.keeps_visited r h);
  keeps_visiting = λ r h. q.keeps_visiting r (p.keeps_visiting r h);
  no_new_visiting = λ r h. p.no_new_visiting r (q.no_new_visiting r h);
}

-- A reference that is unvisited afterwards was unvisited before.
pub Extends-unvisited :
    {a b : String → Mark} → Extends a b → (r : String) → b r ≡ unvisited → a r ≡ unvisited
Extends-unvisited {a} {b} p r h = mark (a r) refl
  where
    mark : (m : Mark) → a r ≡ m → a r ≡ unvisited
    mark unvisited e = e
    mark visiting e = cc (p.keeps_visiting r e)
    mark visited e = cc (p.keeps_visited r e)

-- Marking an unvisited reference, extending, and marking it as visited.
pub Extends-finish :
    (state after : String → Mark) (ref : String)
    → state ref ≡ unvisited
    → Extends (update state ref visiting) after
    → Extends state (update after ref visited)
unfolding update
Extends-finish state after ref fresh p = record {
  keeps_visited = λ r h. ground (arith, eq_iff ref r, p.keeps_visited r);
  keeps_visiting = λ r h. ground (arith, eq_iff ref r, p.keeps_visiting r);
  no_new_visiting = λ r h. ground (arith, eq_iff ref r, p.no_new_visiting r);
}

-- Inversions of a call that returns no error.
pub visit_deps-eq-done :
    (visit_one : String → (String → Mark) → Outcome) (dep : String) (deps : List String)
    (state : String → Mark) {after : String → Mark}
    → visit_deps visit_one (dep ∷ deps) state ≡ done after
    → (mid : String → Mark) × (visit_one dep state ≡ done mid)
      × (visit_deps visit_one deps mid ≡ done after)
unfolding visit_deps
visit_deps-eq-done visit_one dep deps state {after} e = go (visit_one dep state) refl
  where
    go :
        (o : Outcome)
        → visit_one dep state ≡ o
        → (mid : String → Mark) × (visit_one dep state ≡ done mid)
          × (visit_deps visit_one deps mid ≡ done after)
    go (done mid) h = (mid, h, rw (h, visit_deps) at e)
    go (cycle c) h = cc (rw (h, visit_deps) at e)
    go no_fuel h = cc (rw (h, visit_deps) at e)

finish-eq-done :
    (ref : String) (o : Outcome) {after : String → Mark}
    → finish ref o ≡ done after
    → (mid : String → Mark) × (o ≡ done mid) × (after ≡ update mid ref visited)
unfolding finish
finish-eq-done ref (done mid) e = (mid, refl, cc)
finish-eq-done ref (cycle c) e = cc
finish-eq-done ref no_fuel e = cc

module _ (deps_of : String → List String) (fuel : ℕ) (ref : String) (state : String → Mark) where
  pub visit_fresh :
      state ref ≡ unvisited
      → visit deps_of (suc fuel) ref state
        ≡ finish ref (visit_deps (visit deps_of fuel) (deps_of ref) (update state ref visiting))
  unfolding visit
  visit_fresh h = rw (h, visit)

  pub visit-visiting : state ref ≡ visiting → visit deps_of (suc fuel) ref state ≡ cycle ref
  unfolding visit
  visit-visiting h = rw (h, visit)

  pub visit-visited : state ref ≡ visited → visit deps_of (suc fuel) ref state ≡ done state
  unfolding visit
  visit-visited h = rw (h, visit)

  pub visit-eq-done :
      {after : String → Mark}
      → visit deps_of (suc fuel) ref state ≡ done after
      → ((state ref ≡ visited) × (after ≡ state))
        ⊎ ((mid : String → Mark) × (state ref ≡ unvisited)
            × (visit_deps (visit deps_of fuel) (deps_of ref) (update state ref visiting) ≡ done mid)
            × (after ≡ update mid ref visited))
  visit-eq-done {after} e = go (state ref) refl
    where
      go :
          (m : Mark)
          → state ref ≡ m
          → ((state ref ≡ visited) × (after ≡ state))
            ⊎ ((mid : String → Mark) × (state ref ≡ unvisited)
                × (visit_deps (visit deps_of fuel) (deps_of ref) (update state ref visiting)
                    ≡ done mid)
                × (after ≡ update mid ref visited))
      go visited h = inl (h, cc (visit-visited h))
      go visiting h = cc (visit-visiting h)
      go unvisited h =
          let (mid, p, q) = finish-eq-done ref _ (sym (visit_fresh h) ∙ e) in inr (mid, h, p, q)

-- What a call that returns no error has done.
abbrev pub Visits : (String → (String → Mark) → Outcome) → Type 0
Visits visit_one =
    (ref : String) (state after : String → Mark)
    → visit_one ref state ≡ done after
    → Extends state after × (after ref ≡ visited)

pub visit_deps-Extends :
    (visit_one : String → (String → Mark) → Outcome)
    → Visits visit_one
    → (deps : List String) (state after : String → Mark)
    → visit_deps visit_one deps state ≡ done after
    → Extends state after × All (λ d. after d ≡ visited) deps
unfolding visit_deps
visit_deps-Extends visit_one h [] state after e =
    let same : state ≡ after = cc in (rw (← same) (Extends-refl state), tt)
visit_deps-Extends visit_one h (dep ∷ deps) state after e =
    let (mid, p, q) = visit_deps-eq-done visit_one dep deps state e in
    let (first, marked) = h dep state mid p in
    let (rest, all) = visit_deps-Extends visit_one h deps mid after q in
    (Extends-trans first rest, (rest.keeps_visited dep marked, all))

pub visit-Visits : (deps_of : String → List String) (fuel : ℕ) → Visits (visit deps_of fuel)
unfolding visit
visit-Visits deps_of zero ref state after e = cc
visit-Visits deps_of (suc fuel) ref state after e = elim (visit-eq-done deps_of fuel ref state e) [
  | inl (old, same) ↦ (rw same (Extends-refl state), rw same old)
  | inr (mid, fresh, p, q) ↦
      let (ext, _) =
        visit_deps-Extends (visit deps_of fuel) (visit-Visits deps_of fuel) _ _ mid p in
      (rw q (Extends-finish state mid ref fresh ext), rw q (update_self mid ref visited))
]
