-- ===== src/Scheduler/Build/Graph.antt =====
-- The search of detectDependencyCycles over a whole schedule.
use mathlib.Core.List.Memᴰ as MemD
use syver.Prelude.{
  suc, String, ◌≡◌, ◌≢◌, List, [], ◌∷◌, Memᴰ, All, All-mem, All-of_mem, length, update, str_eq,
  Bool-cases, inl, inr, arith, refl,
}
use syver.Scheduler.Cycles.{Mark, unvisited, visited, Outcome, done, cycle, no_fuel, Plus}
use syver.Scheduler.Cycles.Marks.{visit-Visits, visit_deps-Extends}
use syver.Scheduler.Cycles.Fuel.{unvisited_count-le-length, visit-ne-no_fuel, visit_deps-ne-no_fuel}
use syver.Scheduler.Cycles.Sound.{Grounded, visit-VisitedGrounded, visit_deps-VisitedGrounded}
use syver.Scheduler.Cycles.Complete.{visit_cycle, visit_deps_cycle}
use syver.Scheduler.Build.{
  ScheduledResource, refs, by_ref, universe, RangeOrder, detect_dependency_cycles,
}

abbrev Within : List String → List String → Type 0
Within xs ys = (x : String) → Memᴰ x xs → Memᴰ x ys

update-Within :
    (m : String → List String) (k : String) (v us : List String)
    → Within v us
    → ((r : String) → Within (m r) us)
    → (r : String) → Within (update m k v r) us
unfolding update
update-Within m k v us hv hm r = elim (Bool-cases (str_eq k r)) [
  | inl same ↦ rw same hv
  | inr other ↦ rw other (hm r)
]

by_ref-Within :
    (m : String → List String) (schedule : List ScheduledResource) (us : List String)
    → ((r : String) → Within (m r) us)
    → Within (universe schedule) us
    → (r : String) → Within (by_ref m schedule r) us
unfolding by_ref universe
by_ref-Within m [] us hm hu r = hm r
by_ref-Within m (item ∷ items) us hm hu r =
    by_ref-Within (update m item.ref item.deps) items us
      (update-Within m item.ref item.deps us
        (λ x m'. hu x (Memᴰ.tail (MemD.append_left (universe items) m'))) hm)
      (λ x m'. hu x (Memᴰ.tail (MemD.append_right item.deps m'))) r

refs-Within : (schedule : List ScheduledResource) → Within (refs schedule) (universe schedule)
unfolding universe
refs-Within [] x m = elim m [ ]
refs-Within (item ∷ items) x (Memᴰ.head e) = Memᴰ.head e
refs-Within (item ∷ items) x (Memᴰ.tail m) =
    Memᴰ.tail (MemD.append_right item.deps (refs-Within items x m))

-- The prerequisites as `byRef` gives them.
abbrev pub dependencies : List ScheduledResource → String → List String
dependencies schedule = by_ref (λ ref. []) schedule

module _ (range : RangeOrder) (schedule : List ScheduledResource) where
  -- The search never runs out of fuel.
  pub detect-ne-no_fuel : detect_dependency_cycles range schedule ≢ no_fuel
  unfolding detect_dependency_cycles
  detect-ne-no_fuel =
      visit_deps-ne-no_fuel (dependencies schedule) (universe schedule) closed _
        (visit-ne-no_fuel (dependencies schedule) (universe schedule) closed _)
        (range.order (refs schedule)) _
        (All-of_mem (λ d. Memᴰ d (universe schedule)) _
          λ r m. refs-Within schedule r (range.order_sound _ r m))
        (omega (arith, unvisited_count-le-length (λ ref. unvisited) (universe schedule)))
    where
      closed : (r : String) → All (λ d. Memᴰ d (universe schedule)) (dependencies schedule r)
      closed r =
          All-of_mem (λ d. Memᴰ d (universe schedule)) _
            (by_ref-Within (λ ref. []) schedule (universe schedule) (λ r' x m. elim m [ ])
              (λ x m. m) r)

  -- With no error, no reference of the schedule is above a cycle.
  pub detect-done :
      {state : String → Mark}
      → detect_dependency_cycles range schedule ≡ done state
      → All (Grounded (dependencies schedule)) (refs schedule)
  unfolding detect_dependency_cycles
  detect-done {state} e =
      let deps_of = dependencies schedule in
      let fuel = suc (length (universe schedule)) in
      let (_, all) = visit_deps-Extends _ (visit-Visits deps_of fuel) _ _ state e in
      let good =
        visit_deps-VisitedGrounded deps_of fuel (visit-VisitedGrounded deps_of fuel) _ _ state e
          (λ r h. cc h) in
      All-of_mem _ (refs schedule)
        λ r m. good r (All-mem (λ d. state d ≡ visited) (range.order_complete _ r m) all)

  -- The reference of a cycle error is a prerequisite of itself.
  pub detect-cycle :
      {c : String}
      → detect_dependency_cycles range schedule ≡ cycle c
      → Plus (dependencies schedule) c c
  unfolding detect_dependency_cycles
  detect-cycle {c} e =
      visit_deps_cycle (dependencies schedule) _ (visit_cycle (dependencies schedule) _) c _ _ e
        (λ d m u h. cc h)

  -- What the search found.
  abbrev pub Answer : Outcome → Type 0
  Answer (done state) = All (Grounded (dependencies schedule)) (refs schedule)
  Answer (cycle c) = Plus (dependencies schedule) c c
  Answer no_fuel = ⊥

  explain : (o : Outcome) → detect_dependency_cycles range schedule ≡ o → Answer o
  explain (done state) e = detect-done e
  explain (cycle c) e = detect-cycle e
  explain no_fuel e = detect-ne-no_fuel e

  -- The search for cycles always ends, whatever order the references are taken in. Where it finds
  -- none, every reference of the schedule is well-founded over its prerequisites, so none of them
  -- leads to a cycle. Where it reports a reference, that one is a prerequisite of itself, by one or
  -- more steps.
  pub detect_dependency_cycles_lem : Answer (detect_dependency_cycles range schedule)
  detect_dependency_cycles_lem = explain (detect_dependency_cycles range schedule) refl
