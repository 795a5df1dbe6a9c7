-- ===== src/Scheduler/Cycles/Fuel.antt =====
-- Fuel above the number of unvisited references is enough for `visit`.
use syver.Prelude.{
  ℕ, zero, suc, ◌≤◌, ◌<◌, ◌+◌, String, ◌≡◌, refl, sym, ◌∙◌, ◌≢◌, List, [], ◌∷◌, Memᴰ, All, inl, inr,
  length, update, arith, eq_iff,
}
use syver.Scheduler.Cycles.{
  Mark, unvisited, visiting, visited, Outcome, done, cycle, no_fuel, visit, visit_deps, finish,
}
use syver.Scheduler.Cycles.Marks.{
  Extends-unvisited, visit-Visits, visit_fresh, visit-visiting, visit-visited, Outcome-cases,
  Mark-cases,
}

-- How many of `refs` are unvisited.
pub unvisited_count : (String → Mark) → List String → ℕ
unvisited_count state [] = 0
unvisited_count state (r ∷ rs) =
    elim (state r) [ unvisited ↦ 1 | visiting ↦ 0 | visited ↦ 0 ] + unvisited_count state rs

pub unvisited_count-le-length :
    (state : String → Mark) (refs : List String) → unvisited_count state refs ≤ length refs
unfolding unvisited_count
unvisited_count-le-length state [] = omega arith
unvisited_count-le-length state (r ∷ rs) = ground (arith, unvisited_count-le-length state rs)

abbrev Fewer : (String → Mark) → (String → Mark) → Type 0
Fewer after before = (r : String) → after r ≡ unvisited → before r ≡ unvisited

unvisited_count_mono :
    (before after : String → Mark)
    → Fewer after before
    → (refs : List String) → unvisited_count after refs ≤ unvisited_count before refs
unfolding unvisited_count
unvisited_count_mono before after h [] = omega arith
unvisited_count_mono before after h (r ∷ rs) =
    ground (arith, h r, unvisited_count_mono before after h rs)

update-Fewer : (state : String → Mark) (ref : String) → Fewer (update state ref visiting) state
unfolding update
update-Fewer state ref r h = ground (arith, eq_iff ref r)

-- Marking an unvisited member lowers the count.
unvisited_count-update :
    (state : String → Mark) {ref : String} (refs : List String)
    → Memᴰ ref refs
    → state ref ≡ unvisited
    → unvisited_count (update state ref visiting) refs < unvisited_count state refs
unfolding unvisited_count update
unvisited_count-update state [] m fresh = elim m [ ]
unvisited_count-update state {ref} (r ∷ rs) (Memᴰ.head e) fresh =
    ground (arith, eq_iff ref r, e, fresher rs)
  where
    fresher :
        (l : List String) → unvisited_count (update state ref visiting) l ≤ unvisited_count state l
    fresher = unvisited_count_mono state (update state ref visiting) (update-Fewer state ref)
unvisited_count-update state {ref} (r ∷ rs) (Memᴰ.tail m) fresh =
    ground (arith, eq_iff ref r, unvisited_count-update state rs m fresh)

module _ (deps_of : String → List String) (refs : List String)
    (closed : (r : String) → All (λ d. Memᴰ d refs) (deps_of r)) where
  abbrev Enough : ℕ → Type 0
  Enough fuel =
      (ref : String) (state : String → Mark)
      → Memᴰ ref refs
      → unvisited_count state refs < fuel
      → visit deps_of fuel ref state ≢ no_fuel

  pub visit_deps-ne-no_fuel :
      (fuel : ℕ)
      → Enough fuel
      → (deps : List String) (state : String → Mark) → All (λ d. Memᴰ d refs) deps
      → unvisited_count state refs < fuel
      → visit_deps (visit deps_of fuel) deps state ≢ no_fuel
  unfolding visit_deps
  visit_deps-ne-no_fuel fuel ih [] state m h e = cc
  visit_deps-ne-no_fuel fuel ih (dep ∷ deps) state m h e =
      elim (Outcome-cases (visit deps_of fuel dep state)) [
        | inl (mid, p) ↦
            let (ext, _) = visit-Visits deps_of fuel dep state mid p in
            visit_deps-ne-no_fuel fuel ih deps mid m.1
              (omega (arith, unvisited_count_mono state mid (Extends-unvisited ext) refs))
              (rw (p, visit_deps) at e)
        | inr (inl (c, p)) ↦ cc (rw (p, visit_deps) at e)
        | inr (inr p) ↦ ih dep state m.0 h p
      ]

  finish-eq-no_fuel : (ref : String) (o : Outcome) → finish ref o ≡ no_fuel → o ≡ no_fuel
  unfolding finish
  finish-eq-no_fuel ref (done mid) e = cc
  finish-eq-no_fuel ref (cycle c) e = cc
  finish-eq-no_fuel ref no_fuel e = refl

  pub visit-ne-no_fuel : (fuel : ℕ) → Enough fuel
  visit-ne-no_fuel zero ref state m h e = absurd (omega arith)
  visit-ne-no_fuel (suc fuel) ref state m h e = elim (Mark-cases (state ref)) [
    | inl p ↦
        visit_deps-ne-no_fuel fuel (visit-ne-no_fuel fuel) (deps_of ref) _ (closed ref)
          (omega (arith, unvisited_count-update state refs m p))
          (finish-eq-no_fuel ref _ (sym (visit_fresh deps_of fuel ref state p) ∙ e))
    | inr (inl p) ↦ cc (visit-visiting deps_of fuel ref state p)
    | inr (inr p) ↦ cc (visit-visited deps_of fuel ref state p)
  ]
