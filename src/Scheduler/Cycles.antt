-- ===== src/Scheduler/Cycles.antt =====
-- dependency_scheduler.go: detectDependencyCycles, the depth-first search for a cycle.
pub mod Fuel
pub mod Sound
pub mod Marks
pub mod Complete
use syver.Prelude.{ℕ, zero, suc, String, List, [], ◌∷◌, Memᴰ, update}

-- The values of `state`: 0 is `unvisited`, 1 is `visiting`, 2 is `visited`.
pub data Mark : Type 0 where
  unvisited visiting visited : Mark

-- What `visit` leaves: the new `state`, or the reference of the cycle error. `no_fuel` is the
-- model's own, and is never reached from `detect_dependency_cycles`.
pub data Outcome : Type 0 where
  done : (String → Mark) → Outcome
  cycle : String → Outcome
  no_fuel : Outcome

-- `for _, dep := range deps { if err := visit(dep); err != nil { return err } }`
unfoldable pub visit_deps :
    (String → (String → Mark) → Outcome) → List String → (String → Mark) → Outcome
visit_deps visit_one [] state = done state
visit_deps visit_one (dep ∷ deps) state = elim (visit_one dep state) [
  | done state' ↦ visit_deps visit_one deps state'
  | cycle ref ↦ cycle ref
  | no_fuel ↦ no_fuel
]

-- `state[ref] = 2`, once the prerequisites were visited.
unfoldable pub finish : String → Outcome → Outcome
finish ref (done state) = done (update state ref visited)
finish ref (cycle c) = cycle c
finish ref no_fuel = no_fuel

-- `deps_of` is `byRef[ref].deps`.
module _ (deps_of : String → List String) where
  unfoldable pub visit : ℕ → String → (String → Mark) → Outcome
  visit zero ref state = no_fuel
  visit (suc fuel) ref state =
      let rest = finish ref (visit_deps (visit fuel) (deps_of ref) (update state ref visiting)) in
      elim (state ref) [ unvisited ↦ rest | visiting ↦ cycle ref | visited ↦ done state ]

  -- The first reference is a direct prerequisite of the second.
  abbrev pub Dep : String → String → Type 0
  Dep dep ref = Memᴰ dep (deps_of ref)

  -- The second reference is reached from the first by one or more prerequisites.
  pub data Plus (ref : String) : String → Type 0 where
    edge : {dep : String} → Dep dep ref → Plus ref dep
    more : {mid dep : String} → Plus ref mid → Dep dep mid → Plus ref dep
