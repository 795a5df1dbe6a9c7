-- ===== src/Scheduler/Tests.antt =====
-- Small schedules: what the code does on them, and the theorems at them.
use mathlib.Core.List.{Perm, reverse}
use mathlib.Core.List.Permᴰ as PermD
use syver.Prelude.{
  String, concat, update, ◌≡◌, refl, ◌↔◌, List, [], ◌∷◌, map, Option, none, some, false, Memᴰ, All,
  ok, err,
}
use syver.Resource.{Resource, yaml_key, ref_of}
use syver.Resource.Results.{TestResult, fail, no_matcher_result}
use syver.Resource.Reason.{one_line_skip_reason, split_words}
use syver.Resource.Skips.{returned, validate_safe, annotate_skip_reasons, skip_resource_results}
use syver.Scheduler.Refs.{
  resolve_dependency_ref, contains_colon, split_colon, reference_not_found, dependency_cycle,
}
use syver.Scheduler.Cycles.{visit, visit_deps, finish}
use syver.Scheduler.Build.{
  ScheduledResource, RangeOrder, build_schedule, by_ref, detect_dependency_cycles, empty_index,
  add_reference, universe,
}
use syver.Scheduler.Build.Graph.{Answer, detect_dependency_cycles_lem}
use syver.Scheduler.Refs.Laws.{Reference, resolve_dependency_ref_iff}
use syver.Scheduler.Waves.Reasons.{DecidedAs, decide-DecidedAs}
use syver.Scheduler.Build.Sound.{IsSchedule, build_schedule-IsSchedule}
use syver.Scheduler.Waves.{
  World, Workers, Finished, validate_schedule, Emission, loop, pass, decide, run_wave, run_item,
  wave_emissions, verdict_of, passed,
}
use syver.Scheduler.Waves.Passing.{sources}
use syver.Scheduler.Waves.Verdicts.{Reported}
use syver.Scheduler.Waves.Reporting.{validate_schedule-Reported}
use syver.Scheduler.Waves.Agreeing.{validate_schedule-deterministic}

abbrev in_order : RangeOrder
in_order = record {
  order = λ keys. keys;
  order_sound = λ keys k m. m;
  order_complete = λ keys k m. m;
}

abbrev resource : String → String → List String → Resource
resource type_key id depends_on = record {
  type_key = type_key;
  type_name = type_key;
  id_field = some id;
  read = some (record { id = id; title = "" });
  depends_on = depends_on;
  skip = false;
}

-- A health check that needs a version check, which in turn needs the binary.
abbrev given : List Resource
given =
    resource "command" "health" ("version" ∷ [])
    ∷ resource "command" "version" ("file:/bin/app" ∷ [])
    ∷ resource "file" "/bin/app" []
    ∷ []

abbrev health : ScheduledResource
health = record {
  ref = "command:health";
  resource = resource "command" "health" ("version" ∷ []);
  deps = "command:version" ∷ [];
}

abbrev version : ScheduledResource
version = record {
  ref = "command:version";
  resource = resource "command" "version" ("file:/bin/app" ∷ []);
  deps = "file:/bin/app" ∷ [];
}

abbrev binary : ScheduledResource
binary = record { ref = "file:/bin/app"; resource = resource "file" "/bin/app" []; deps = [] }

abbrev schedule : List ScheduledResource
schedule = health ∷ version ∷ binary ∷ []

scheduler : Unit {0}
unfolding build_schedule detect_dependency_cycles visit by_ref resolve_dependency_ref ref_of
    yaml_key concat update empty_index add_reference contains_colon split_colon visit_deps finish
    universe
scheduler = tt

-- The binary is missing: its check fails.
abbrev failing : TestResult
failing = record {
  successful = false;
  skipped = false;
  skip_reason = "";
  resource_id = "/bin/app";
  resource_type = "file";
  property = "exists";
  title = "";
  result = fail;
  error = none;
  matcher_result = no_matcher_result;
}

abbrev without_binary : World
without_binary = record {
  validation = λ res. returned (failing ∷ []);
  own_skip_reason = λ res. none;
  quote = λ s. s;
}

abbrev one_worker : Workers
one_worker = record { order = λ items. items; order_perm = λ items. PermD.refl items }

abbrev backwards : Workers
backwards = record { order = reverse; order_perm = λ items. PermD.reverse items }

waves : Unit {0}
unfolding scheduler validate_schedule loop pass decide run_wave run_item wave_emissions verdict_of
    passed validate_safe annotate_skip_reasons skip_resource_results one_line_skip_reason
    split_words
waves = tt

build-given : build_schedule in_order given ≡ ok schedule
unfolding scheduler
build-given = refl

cyclic :
    build_schedule in_order
      (resource "file" "a" ("b" ∷ []) ∷ resource "file" "b" ("file:a" ∷ []) ∷ [])
    ≡ err (dependency_cycle "file:a")
unfolding scheduler
cyclic = refl

-- A key with a colon is read as `type:key`, so it cannot be named on its own.
colon_key :
    build_schedule in_order
      (resource "http" "https://a" [] ∷ resource "file" "b" ("https://a" ∷ []) ∷ [])
    ≡ err (reference_not_found "https://a")
unfolding scheduler
colon_key = refl

given-IsSchedule : IsSchedule given schedule
given-IsSchedule = build_schedule-IsSchedule in_order given schedule build-given

sent : Finished
unfolding waves
sent = elim (validate_schedule without_binary one_worker schedule) [
  | none ↦ record { emissions = []; final = λ ref. none }
  | some f ↦ f
]

-- The file fails, the version is skipped since it failed, and the health check since that was.
sent_reasons :
    map (λ (e : Emission). map (λ (t : TestResult). t.skip_reason) e.results) sent.emissions
    ≡ ("" ∷ [])
      ∷ ("dependency file:/bin/app failed" ∷ [])
      ∷ ("dependency command:version was skipped" ∷ [])
      ∷ []
unfolding waves sent
sent_reasons = refl

sent_finished :
    (validate_schedule without_binary one_worker schedule ≡ some sent)
    × (validate_schedule without_binary backwards schedule ≡ some sent)
unfolding waves sent
sent_finished = (refl, refl)

build_schedule-IsSchedule_example : IsSchedule given schedule
build_schedule-IsSchedule_example = build_schedule-IsSchedule in_order given schedule build-given

validate_schedule-Reported_example :
    (f : Finished) × (validate_schedule without_binary one_worker schedule ≡ some f)
    × Perm (sources f.emissions) schedule
    × All (Reported without_binary f.final) f.emissions
validate_schedule-Reported_example =
    validate_schedule-Reported without_binary one_worker given schedule given-IsSchedule

validate_schedule-deterministic_example :
    ((item : ScheduledResource) → Memᴰ item schedule → sent.final item.ref ≡ sent.final item.ref)
    × ((e e' : Emission)
        → Memᴰ e sent.emissions
        → Memᴰ e' sent.emissions
        → e.source ≡ e'.source
        → Memᴰ e.source schedule
        → e.results ≡ e'.results)
validate_schedule-deterministic_example =
    validate_schedule-deterministic without_binary one_worker backwards given schedule sent sent
      given-IsSchedule sent_finished.0 sent_finished.1

detect_dependency_cycles_lem_example :
    Answer in_order schedule (detect_dependency_cycles in_order schedule)
detect_dependency_cycles_lem_example = detect_dependency_cycles_lem in_order schedule

abbrev known : String → Option Resource
known = update (λ ref. none) "file:/bin/app" (some (resource "file" "/bin/app" []))

resolve_dependency_ref_iff_example :
    (resolve_dependency_ref "file:/bin/app" known (λ key. []) ≡ ok "file:/bin/app")
    ↔ Reference known (λ key. []) "file:/bin/app" "file:/bin/app"
resolve_dependency_ref_iff_example =
    resolve_dependency_ref_iff known (λ key. []) "file:/bin/app" "file:/bin/app"

decide-DecidedAs_example :
    DecidedAs without_binary
      (λ ref. some fail)
      ("file:/bin/app" ∷ [])
      (decide without_binary (λ ref. some fail) ("file:/bin/app" ∷ []))
decide-DecidedAs_example =
    decide-DecidedAs without_binary (λ ref. some fail) ("file:/bin/app" ∷ []) ((fail, refl), tt)
