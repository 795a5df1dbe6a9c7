-- ===== src/Run/Disabling.antt =====
-- How the resources of a spec are run: applyDisabledTypes and hasDependencies.
use syver.Prelude.{
  String, ◌≡◌, refl, ap, ◌∙◌, ◌⊎◌, inl, inr, Bool, true, List, [], ◌∷◌, Memᴰ, ◌≢◌, false, ◌||◌,
  if◌then◌else◌,
}
use syver.Resource.{Resource, set_skip}
use mathlib.Core.List.Memᴰ as MemD
use syver.Scheduler.Build.{has_dependencies}
use syver.Scheduler.Waves.{apply_disabled_types}

-- Some resource has prerequisites.
abbrev pub Bound : List Resource → Type 0
Bound resources = (res : Resource) × Memᴰ res resources × (res.depends_on ≢ [])

depends_on-cases :
    (deps : List String)
    → (deps ≡ []) ⊎ ((dep : String) × (rest : List String) × (deps ≡ dep ∷ rest))
depends_on-cases [] = inl refl
depends_on-cases (dep ∷ rest) = inr (dep, rest, refl)

pub has_dependencies-Bound :
    (rs : List Resource)
    → ((has_dependencies rs ≡ true) × Bound rs) ⊎ ((has_dependencies rs ≡ false) × (¬ Bound rs))
unfolding has_dependencies
has_dependencies-Bound [] = inr (refl, λ (res, m, n). elim m [ ])
has_dependencies-Bound (res ∷ rest) = elim (depends_on-cases res.depends_on) [
  | inl e ↦ elim (has_dependencies-Bound rest) [
    | inl (h, (r, m, n)) ↦ inl (rw (e, has_dependencies) h, (r, Memᴰ.tail m, n))
    | inr (h, n) ↦ inr (
      rw (e, has_dependencies) h,
      λ (r, m, k). elim (MemD.cases_cons m) [
        | inl same ↦ k (ap (λ (x : Resource). x.depends_on) same ∙ e)
        | inr m' ↦ n (r, m', k)
      ],
    )
  ]
  | inr (dep, deps, e) ↦ inl (rw (e, has_dependencies) refl, (res, Memᴰ.head refl, λ x. cc))
]

-- How a resource of the spec is run: marked as skipped where its type, by either of its names, is on
-- the list, and as it is elsewhere.
module _ (is_value_in_list : String → List String → Bool) (skip_list : List String) where
  abbrev pub Disabled : Resource → Type 0
  Disabled res =
      (is_value_in_list res.type_name skip_list ≡ true)
      ⊎ (is_value_in_list res.type_key skip_list ≡ true)

  abbrev pub RunAs : Resource → Resource → Type 0
  RunAs res ran =
      (Disabled res × (ran ≡ record res { skip = true })) ⊎ ((¬ Disabled res) × (ran ≡ res))

  -- The same, of the resources in turn.
  abbrev pub RunAsAll : List Resource → List Resource → Type 0
  RunAsAll [] [] = Unit {0}
  RunAsAll (res ∷ given) (ran ∷ rans) = RunAs res ran × RunAsAll given rans
  RunAsAll _ _ = ⊥

  run_as :
      (res : Resource) (by_name by_key : Bool)
      → is_value_in_list res.type_name skip_list ≡ by_name
      → is_value_in_list res.type_key skip_list ≡ by_key
      → RunAs res (if by_name || by_key then set_skip res else res)
  unfolding set_skip
  run_as res true by_key e h = inl (inl e, refl)
  run_as res false true e h = inl (inr h, refl)
  run_as res false false e h = inr ((λ d. elim d [ inl x ↦ cc (x, e) | inr x ↦ cc (x, h) ]), refl)

  pub apply_disabled_types-RunAs :
      (given : List Resource)
      → RunAsAll given (apply_disabled_types is_value_in_list skip_list given)
  unfolding apply_disabled_types
  apply_disabled_types-RunAs [] = tt
  apply_disabled_types-RunAs (res ∷ rest) =
      (run_as res _ _ refl refl, apply_disabled_types-RunAs rest)
