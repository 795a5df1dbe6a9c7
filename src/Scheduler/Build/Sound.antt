-- ===== src/Scheduler/Build/Sound.antt =====
-- What a schedule that buildSchedule accepts promises.
use syver.Prelude.{
  String, ◌≡◌, refl, ◌≢◌, ◌⊎◌, inl, inr, List, [], ◌∷◌, map, ap, Memᴰ, All, All-mem, All-of_mem,
  Result, ok, err, >>=-eq-ok, subst,
}
use syver.Resource.{Resource, ref_of}
use syver.Scheduler.Refs.{ScheduleError, dependency_cycle, resolve_dependency_ref}
use syver.Scheduler.Refs.Laws.{resolve-Resolves}
use syver.Scheduler.Cycles.{Outcome, done, cycle, no_fuel, Plus}
use syver.Scheduler.Cycles.Marks.{Outcome-cases}
use syver.Scheduler.Cycles.Sound.{Grounded}
use syver.Scheduler.Build.{
  ScheduledResource, Index, empty_index, index_resources, canonical_deps, schedule_resources, refs,
  RangeOrder, detect_dependency_cycles, accept, build_schedule,
}
use syver.Scheduler.Build.Graph.{dependencies, detect-done, detect-cycle, detect-ne-no_fuel}
use syver.Scheduler.Build.Known.{
  Distinct, Named, Keyed, Knows, Knows-empty, index_resources-Knows, index_resources-Distinct,
}

-- What a prerequisite, as written, stands for: the reference of a resource that is written out in
-- full, or that of a resource which has the text for its key.
abbrev pub StandsFor : List Resource → String → String → Type 0
StandsFor resources dep ref = ((ref ≡ dep) × Named resources ref) ⊎ Keyed resources dep ref

abbrev pub StandFor : List Resource → List String → List String → Type 0
StandFor resources [] [] = Unit {0}
StandFor resources (d ∷ ds) (r ∷ rs) = StandsFor resources d r × StandFor resources ds rs
StandFor resources _ _ = ⊥

resolve-StandsFor :
    {known : List Resource} {ix : Index} (dep : String) {ref : String}
    → Knows known ix
    → resolve_dependency_ref dep ix.index ix.refs_by_key ≡ ok ref
    → StandsFor known dep ref
resolve-StandsFor {known} {ix} dep {ref} k e =
    elim (resolve-Resolves ix.index ix.refs_by_key dep e) [
      | inl (_, same, found) ↦ inl (same, k.indexed ref found)
      | inr (_, one) ↦
          let all : All (Keyed known dep) (ref ∷ []) =
            subst (λ l. All (Keyed known dep) l) one (k.keyed dep) in
          inr all.0
    ]

canonical_deps-StandFor :
    {known : List Resource} {ix : Index} (deps refs : List String)
    → Knows known ix
    → canonical_deps ix deps ≡ ok refs
    → StandFor known deps refs
unfolding canonical_deps
canonical_deps-StandFor {ix} [] refs k e = let none_left : [] ≡ refs = cc in rw (← none_left) tt
canonical_deps-StandFor {ix} (dep ∷ deps) refs k e =
    let (ref, p, e') = >>=-eq-ok (resolve_dependency_ref dep ix.index ix.refs_by_key) _ e in
    let (rest, q, e'') = >>=-eq-ok (canonical_deps ix deps) _ e' in
    let same : ref ∷ rest ≡ refs = cc in
    rw (← same) (resolve-StandsFor dep k p, canonical_deps-StandFor deps rest k q)

schedule_resources_lem :
    {known : List Resource} {ix : Index} (resources : List Resource)
    (schedule : List ScheduledResource)
    → Knows known ix
    → schedule_resources ix resources ≡ ok schedule
    → (map (λ item. item.resource) schedule ≡ resources)
      × (refs schedule ≡ map ref_of resources)
      × All (λ item. StandFor known item.resource.depends_on item.deps) schedule
unfolding schedule_resources
schedule_resources_lem {ix} [] schedule k e =
    let none_left : [] ≡ schedule = cc in rw (← none_left) (refl, refl, tt)
schedule_resources_lem {ix} (res ∷ rest) schedule k e =
    let (deps, p, e') = >>=-eq-ok (canonical_deps ix res.depends_on) _ e in
    let (items, q, e'') = >>=-eq-ok (schedule_resources ix rest) _ e' in
    let (kept, named, stand) = schedule_resources_lem rest items k q in
    let same : record { ref = ref_of res; resource = res; deps = deps } ∷ items ≡ schedule = cc in
    rw (← same) (
      ap (λ xs. res ∷ xs) kept,
      ap (λ xs. ref_of res ∷ xs) named,
      (canonical_deps-StandFor _ deps k p, stand),
    )

StandFor-mono :
    {known more : List Resource}
    → ((r : Resource) → Memᴰ r known → Memᴰ r more)
    → (deps refs : List String) → StandFor known deps refs
    → StandFor more deps refs
StandFor-mono sub [] [] h = tt
StandFor-mono sub [] (r ∷ rs) h = h
StandFor-mono sub (d ∷ ds) [] h = h
StandFor-mono sub (d ∷ ds) (r ∷ rs) h = (
  elim h.0 [
    | inl (same, (res, m, e)) ↦ inl (same, (res, sub res m, e))
    | inr (res, m, e, e') ↦ inr (res, sub res m, e, e')
  ],
  StandFor-mono sub ds rs h.1,
)

-- A schedule for the given resources.
pub record IsSchedule (resources : List Resource) (schedule : List ScheduledResource) : Type 0 where
  pub kept : map (λ item. item.resource) schedule ≡ resources
  pub named : refs schedule ≡ map ref_of resources
  pub distinct : Distinct (refs schedule)
  pub resolved : All (λ item. StandFor resources item.resource.depends_on item.deps) schedule
  pub grounded : All (Grounded (dependencies schedule)) (refs schedule)

accept-eq-ok :
    (range : RangeOrder) (schedule final : List ScheduledResource) (o : Outcome)
    → accept range schedule o ≡ ok final
    → (schedule ≡ final) × (o ≢ no_fuel) × ((c : String) → o ≢ cycle c)
unfolding accept
accept-eq-ok range schedule final (done state) e = (cc, λ h. cc, λ c h. cc)
accept-eq-ok range schedule final (cycle c) e = cc
accept-eq-ok range schedule final no_fuel e = cc

detect-Grounded :
    (range : RangeOrder) (schedule final : List ScheduledResource)
    → accept range schedule (detect_dependency_cycles range schedule) ≡ ok final
    → (schedule ≡ final) × All (Grounded (dependencies schedule)) (refs schedule)
detect-Grounded range schedule final e =
    let (same, fueled, acyclic) = accept-eq-ok range schedule final _ e in
    elim (Outcome-cases (detect_dependency_cycles range schedule)) [
      | inl (state, p) ↦ (same, detect-done range schedule p)
      | inr (inl (c, p)) ↦ absurd (acyclic c p)
      | inr (inr p) ↦ absurd (fueled p)
    ]

-- If buildSchedule returns no error, its schedule holds the resources in order, each under its own
-- reference, no two references are equal, each prerequisite as written stands for the reference
-- it was resolved to, of a given resource, and no reference is above a cycle.
pub build_schedule-IsSchedule :
    (range : RangeOrder) (resources : List Resource) (schedule : List ScheduledResource)
    → build_schedule range resources ≡ ok schedule
    → IsSchedule resources schedule
unfolding build_schedule
build_schedule-IsSchedule range resources schedule e =
    let (ix, indexed, e') = >>=-eq-ok (index_resources empty_index resources) _ e in
    let (built, scheduled, e'') = >>=-eq-ok (schedule_resources ix resources) _ e' in
    let (same, grounded) = detect-Grounded range built schedule e'' in
    let (all, knows, covered) =
      index_resources-Knows resources [] empty_index ix Knows-empty indexed in
    let (_, distinct) = index_resources-Distinct resources empty_index ix indexed in
    let (kept, named, stand) = schedule_resources_lem resources built knows scheduled in
    let sub : (r : Resource) → Memᴰ r all → Memᴰ r resources =
      λ r m. elim (covered r m) [ inl old ↦ elim old [ ] | inr new ↦ new ] in
    subst (IsSchedule resources) same (record {
      kept = kept;
      named = named;
      distinct = rw named distinct;
      resolved =
          All-of_mem (λ item. StandFor resources item.resource.depends_on item.deps) built
            λ item m.
              StandFor-mono sub _ _
                (All-mem (λ item. StandFor all item.resource.depends_on item.deps) m stand);
      grounded = grounded;
    })

pub accept-dependency_cycle :
    (range : RangeOrder) (schedule : List ScheduledResource) (c : String)
    → accept range schedule (detect_dependency_cycles range schedule) ≡ err (dependency_cycle c)
    → Plus (dependencies schedule) c c
unfolding accept
accept-dependency_cycle range schedule c e =
    elim (Outcome-cases (detect_dependency_cycles range schedule)) [
      | inl (state, p) ↦ cc (rw (p, accept) at e)
      | inr (inl (c', p)) ↦
          let same : ◌≡◌ {A = Result ScheduleError (List ScheduledResource)}
              (err (dependency_cycle c')) (err (dependency_cycle c)) =
            rw (p, accept) at e in
          let c_c : c' ≡ c = cc in detect-cycle range schedule (rw c_c at p)
      | inr (inr p) ↦ absurd (detect-ne-no_fuel range schedule p)
    ]
