-- ===== src/Discovery/Tests.antt =====
-- A small discovery, and the theorem at it.
use mathlib.Core.List.{reverse}
use mathlib.Core.List.Permᴰ as PermD
use syver.Prelude.{
  String, str_eq, concat, update, ◌≡◌, refl, true, false, if◌then◌else◌, List, [], ◌∷◌, none, some,
  ok, err,
}
use syver.Resource.Results.{TestResult, fail, no_matcher_result}
use syver.Resource.Skips.{
  returned, validate_safe, annotate_skip_reasons, annotate_all, annotate, reason_from,
  promoted_skip_reason,
}
use syver.Scheduler.Waves.{World, passed}
use syver.Run.Validation.{check}
use syver.Discovery.{
  DiscoveryEntry, duplicate_register, Arrival, entries_from, record_results, run_discovery_entries,
  run_if_any, validate_discovery, missing_id,
}
use syver.Discovery.Registers.{Registered}
use syver.Discovery.Findings.{Found, validate_discovery-Found}

abbrev failing : TestResult
failing = record {
  successful = false;
  skipped = false;
  skip_reason = "";
  resource_id = "";
  resource_type = "file";
  property = "exists";
  title = "";
  result = fail;
  error = none;
  matcher_result = no_matcher_result;
}

-- Only the first file is there.
abbrev world : World
world = record {
  validation = λ res. returned (if str_eq res.type_name "first" then [] else failing ∷ []);
  own_skip_reason = λ res. none;
  quote = λ s. s;
}

abbrev entry : String → String → DiscoveryEntry
entry register name = record {
  register = register;
  resource = record {
    type_key = "file";
    type_name = name;
    id_field = some name;
    read = none;
    depends_on = [];
    skip = false;
  };
}

abbrev given : List DiscoveryEntry
given = entry "debian" "first" ∷ entry "alpine" "second" ∷ []

abbrev backwards : Arrival
backwards = record { order = reverse; order_perm = λ entries. PermD.reverse entries }

discovery : Unit {0}
unfolding validate_discovery entries_from run_if_any run_discovery_entries record_results update
    passed check validate_safe annotate_skip_reasons annotate_all annotate reason_from
    promoted_skip_reason concat missing_id
discovery = tt

discovered :
    validate_discovery world backwards given ≡ ok (run_discovery_entries world backwards given)
unfolding discovery
discovered = refl

debian : run_discovery_entries world backwards given "debian" ≡ some true
unfolding discovery
debian = refl

alpine : run_discovery_entries world backwards given "alpine" ≡ some false
unfolding discovery
alpine = refl

twice :
    validate_discovery world backwards (entry "os" "first" ∷ entry "os" "second" ∷ [])
    ≡ err (duplicate_register "os")
unfolding discovery
twice = refl

validate_discovery-Found_example :
    Registered given × Found world given (run_discovery_entries world backwards given)
validate_discovery-Found_example =
    validate_discovery-Found world backwards given (run_discovery_entries world backwards given)
      discovered
