-- ===== src/Discovery/Findings.antt =====
-- What a discovery finds: one answer for each register, whatever order the results arrive in.
use mathlib.Core.List.{Mem}
use mathlib.Core.List.Perm
use mathlib.Core.Logic.{∥∥₁_elim}
use syver.Prelude.{
  String, str_eq, update, update_self, update_ne, ◌≡◌, ◌≢◌, refl, sym, subst, ◌∙◌, ap, ◌⊎◌, inl,
  inr, Bool, List, [], ◌∷◌, Option, none, some, Memᴰ, ok, Bool-cases, eq_of_str_eq, eq_iff,
  >>=-eq-ok,
}
use syver.Scheduler.Waves.{World, passed}
use syver.Run.Validation.{check}
use syver.Discovery.{
  DiscoveryEntry, Arrival, record_results, run_discovery_entries, run_if_any, validate_discovery,
  entries_from,
}
use syver.Discovery.Registers.{Registered, Registered-nil, entries_from-Registered}

module _ (world : World) where
  abbrev pub answer : DiscoveryEntry → Option Bool
  answer e = some (passed (check world e.resource))

  -- What the map holds for a name: the answer of an entry that registers it, or what it held.
  abbrev Held : (String → Option Bool) → List DiscoveryEntry → String → Option Bool → Type 0
  Held before entries r found =
      ((e : DiscoveryEntry) × Memᴰ e entries × (e.register ≡ r) × (found ≡ answer e))
      ⊎ (((e : DiscoveryEntry) → Memᴰ e entries → e.register ≢ r) × (found ≡ before r))

  record_results-Held :
      (before : String → Option Bool) (entries : List DiscoveryEntry) (r : String)
      → Held before entries r (record_results world before entries r)
  unfolding record_results
  record_results-Held before [] r = inr ((λ e m. elim m [ ]), refl)
  record_results-Held before (x ∷ xs) r =
      elim (record_results-Held (update before x.register (answer x)) xs r) [
        | inl (e, m, named, found) ↦ inl (e, Memᴰ.tail m, named, found)
        | inr (others, found) ↦ elim (Bool-cases (str_eq x.register r)) [
          | inl same ↦
              let named = eq_of_str_eq x.register r same in
              inl (
                x,
                Memᴰ.head refl,
                named,
                found
                    ∙ ap (update before x.register (answer x)) (sym named)
                    ∙ update_self before x.register (answer x),
              )
          | inr other ↦
              let apart : x.register ≢ r = λ h. cc ((eq_iff x.register r).1 h, other) in
              inr (
                no_other x xs r apart others,
                found ∙ update_ne before x.register r (answer x) apart,
              )
        ]
      ]
    where
      no_other :
          (y : DiscoveryEntry) (ys : List DiscoveryEntry) (s : String)
          → y.register ≢ s
          → ((e : DiscoveryEntry) → Memᴰ e ys → e.register ≢ s)
          → (e : DiscoveryEntry) → Memᴰ e (y ∷ ys)
          → e.register ≢ s
      no_other y ys s h others e (Memᴰ.head p) =
          λ q. h (sym (ap (λ (d : DiscoveryEntry). d.register) p) ∙ q)
      no_other y ys s h others e (Memᴰ.tail m) = others e m

  -- What the map says of the entries of a discovery.
  pub record Found (entries : List DiscoveryEntry) (discovered : String → Option Bool)
      : Type 0 where
    pub answered : (e : DiscoveryEntry) → Memᴰ e entries → discovered e.register ≡ answer e
    pub nothing_else :
        (r : String)
        → ((e : DiscoveryEntry) → Memᴰ e entries → e.register ≢ r)
        → discovered r ≡ none

  Answer-set : IsSet (Option Bool)
  Answer-set = hlevel

  module _ (arrival : Arrival) (entries : List DiscoveryEntry) where
    arrives : (e : DiscoveryEntry) → Memᴰ e entries → Mem e (arrival.order entries)
    arrives e m = Perm.subset (Perm.symm ∣ arrival.order_perm entries ∣₁) e ∣ m ∣₁

    sent : (e : DiscoveryEntry) → Memᴰ e (arrival.order entries) → Mem e entries
    sent e m = Perm.subset ∣ arrival.order_perm entries ∣₁ e ∣ m ∣₁

    run_discovery_entries-Found :
        Registered entries → Found entries (run_discovery_entries world arrival entries)
    unfolding run_discovery_entries
    run_discovery_entries-Found reg = record {
      answered = λ e m.
          elim (record_results-Held (λ register. none) (arrival.order entries) e.register) [
            | inl (x, m', named, found) ↦
                ∥∥₁_elim (sent x m') (Answer-set _ _)
                  λ x_in. found ∙ ap answer (reg.apart x e x_in m named)
            | inr (others, found) ↦
                ∥∥₁_elim (arrives e m) (Answer-set _ _) λ e_in. absurd (others e e_in refl)
          ];
      nothing_else = λ r others.
          elim (record_results-Held (λ register. none) (arrival.order entries) r) [
            | inl (x, m', named, found) ↦
                ∥∥₁_elim (sent x m') (Answer-set _ _) λ x_in. absurd (others x x_in named)
            | inr (_, found) ↦ found
          ];
    }

  run_if_any-Found :
      (arrival : Arrival) (entries : List DiscoveryEntry) (discovered : String → Option Bool)
      → Registered entries
      → run_if_any world arrival entries ≡ ok discovered
      → Found entries discovered
  unfolding run_if_any
  run_if_any-Found arrival [] discovered reg e = cc
  run_if_any-Found arrival (x ∷ xs) discovered reg e =
      let same : run_discovery_entries world arrival (x ∷ xs) ≡ discovered = cc in
      subst (Found (x ∷ xs)) same (run_discovery_entries-Found arrival (x ∷ xs) reg)

  -- A discovery that succeeds has a register for each of its checks, and no two share one. It finds
  -- for each register whether the check passed, whatever order the workers finish in, and nothing
  -- under any other name.
  pub validate_discovery-Found :
      (arrival : Arrival) (given : List DiscoveryEntry) (discovered : String → Option Bool)
      → validate_discovery world arrival given ≡ ok discovered
      → Registered given × Found given discovered
  unfolding validate_discovery
  validate_discovery-Found arrival given discovered e =
      let (entries, p, e') = >>=-eq-ok (entries_from [] given) _ e in
      let (reg, same) = entries_from-Registered [] given entries Registered-nil p in
      let reg' : Registered given = subst Registered same reg in
      (
        reg',
        run_if_any-Found arrival given discovered reg'
            (subst (λ es. run_if_any world arrival es ≡ ok discovered) same e'),
      )
