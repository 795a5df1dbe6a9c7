-- ===== src/Discovery.antt =====
-- discovery_config.go and discovery_validate.go: the checks of `discovery:`, each under the name that
-- it registers, and what they find.
pub mod Registers
pub mod Findings
mod Tests
use mathlib.Core.List.{Permᴰ}
use syver.Prelude.{
  String, concat, str_eq, update, Bool, true, false, List, [], ◌∷◌, ◌++◌, Option, none, some, any,
  if◌then◌else◌, Result, ok, err, ◌>>=◌,
}
use syver.Resource.{Resource, Read}
use syver.Scheduler.Waves.{World, passed}
use syver.Run.Validation.{check}

-- `DiscoveryEntry`; it also stands for a resource with the answer of its `GetRegister`.
pub record DiscoveryEntry : Type 0 where
  pub register : String
  pub resource : Resource

pub data DiscoveryError : Type 0 where
  missing_register : String → DiscoveryError
  duplicate_register : String → DiscoveryError
  no_discovery_tests : DiscoveryError

-- The name of a resource in the error for a missing register.
unfoldable pub missing_id : Resource → String
missing_id res = elim res.read [
  | some r ↦ concat res.type_key (concat ":" r.id)
  | none ↦ res.type_key
]

-- The loops of `Entries`, over the resources of all types in turn; `entries` is what they have so
-- far.
unfoldable pub entries_from :
    List DiscoveryEntry → List DiscoveryEntry → Result DiscoveryError (List DiscoveryEntry)
unfolding missing_id
entries_from entries [] = ok entries
entries_from entries (t ∷ rest) =
    let further = entries_from (entries ++ t ∷ []) rest in
    if str_eq t.register ""
    then err (missing_register (missing_id t.resource))
    else if any (λ (existing : DiscoveryEntry). str_eq existing.register t.register) entries
    then err (duplicate_register t.register)
    else further

-- The order in which the results come out of the workers.
pub record Arrival : Type 0 where
  pub order : List DiscoveryEntry → List DiscoveryEntry
  pub order_perm : (entries : List DiscoveryEntry) → Permᴰ (order entries) entries

module _ (world : World) where
  -- The map `discovered`, as the results arrive.
  unfoldable pub record_results :
      (String → Option Bool) → List DiscoveryEntry → String → Option Bool
  record_results discovered [] = discovered
  record_results discovered (entry ∷ entries) =
      record_results (update discovered entry.register (some (passed (check world entry.resource))))
        entries

  -- `runDiscoveryEntries`
  unfoldable pub run_discovery_entries : Arrival → List DiscoveryEntry → String → Option Bool
  unfolding record_results
  run_discovery_entries arrival entries = record_results (λ register. none) (arrival.order entries)

  unfoldable pub run_if_any :
      Arrival → List DiscoveryEntry → Result DiscoveryError (String → Option Bool)
  run_if_any arrival [] = err no_discovery_tests
  run_if_any arrival (entry ∷ entries) = ok (run_discovery_entries arrival (entry ∷ entries))

  -- `validateDiscovery`, on the resources of the `discovery:` block.
  unfoldable pub validate_discovery :
      Arrival → List DiscoveryEntry → Result DiscoveryError (String → Option Bool)
  unfolding entries_from run_if_any
  validate_discovery arrival given = do entries ← entries_from [] given; run_if_any arrival entries
