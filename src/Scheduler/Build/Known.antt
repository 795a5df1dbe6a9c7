-- ===== src/Scheduler/Build/Known.antt =====
-- The index that buildSchedule builds, and the prerequisites that it resolves.
use syver.Prelude.{
  String, ◌≡◌, refl, sym, ◌≢◌, ◌⊎◌, inl, inr, none, true, List, [], ◌∷◌, map, Memᴰ, All, All-mem,
  All-of_mem, All-append, update, subst, str_eq, Bool-cases, Option-cases, eq_iff, ok,
}
use syver.Resource.{Resource, yaml_key, ref_of}
use syver.Scheduler.Refs.{is_some}
use syver.Scheduler.Build.{Index, empty_index, add_reference, index_resources}

-- No two members are equal.
abbrev pub Distinct : List String → Type 0
Distinct [] = Unit {0}
Distinct (x ∷ xs) = All (λ y. x ≢ y) xs × Distinct xs

-- `r` is the reference of a known resource; and of one with the key `k`.
abbrev pub Named : List Resource → String → Type 0
Named known r = (res : Resource) × Memᴰ res known × (ref_of res ≡ r)

abbrev pub Keyed : List Resource → String → String → Type 0
Keyed known k r = (res : Resource) × Memᴰ res known × (ref_of res ≡ r) × (yaml_key res ≡ k)

-- Everything that the index gives refers to a known resource.
pub record Knows (known : List Resource) (ix : Index) : Type 0 where
  pub indexed : (r : String) → is_some (ix.index r) ≡ true → Named known r
  pub keyed : (k : String) → All (Keyed known k) (ix.refs_by_key k)

pub Knows-empty : Knows [] empty_index
unfolding empty_index
Knows-empty = record { indexed = λ r h. cc h; keyed = λ k. tt }

Knows-add :
    {known : List Resource} {ix : Index} (res : Resource)
    → Knows known ix
    → Knows (res ∷ known) (add_reference ix res)
unfolding add_reference update
Knows-add {known} {ix} res k = record {
  indexed = λ r h. elim (Bool-cases (str_eq (ref_of res) r)) [
    | inl same ↦ (res, Memᴰ.head refl, (eq_iff _ _).0 same)
    | inr other ↦ let (old, m, e) = k.indexed r (rw other at h) in (old, Memᴰ.tail m, e)
  ];
  keyed = λ j.
      let old : All (Keyed (res ∷ known) j) (ix.refs_by_key j) =
        All-of_mem (Keyed (res ∷ known) j) _ λ r m.
          let (prev, m', e, e') = All-mem (Keyed known j) m (k.keyed j) in
          (prev, Memᴰ.tail m', e, e') in
      elim (Bool-cases (str_eq (yaml_key res) j)) [
        | inl same ↦
            let key : yaml_key res ≡ j = (eq_iff _ _).0 same in
            rw same (
              All-append (Keyed (res ∷ known) j) _ _
                (subst (λ x. All (Keyed (res ∷ known) j) (ix.refs_by_key x)) (sym key) old)
                ((res, Memᴰ.head refl, refl, key), tt))
        | inr other ↦ rw other old
      ];
}

-- The index after the first loop knows only the resources that the loop saw.
pub index_resources-Knows :
    (resources : List Resource) (known : List Resource) (ix final : Index)
    → Knows known ix
    → index_resources ix resources ≡ ok final
    → (all : List Resource) × Knows all final
      × ((r : Resource) → Memᴰ r all → Memᴰ r known ⊎ Memᴰ r resources)
unfolding index_resources
index_resources-Knows [] known ix final k e =
    let same : ix ≡ final = cc in (known, rw (← same) k, λ r m. inl m)
index_resources-Knows (res ∷ rest) known ix final k e =
    elim (Option-cases (ix.index (ref_of res))) [
      | inl fresh ↦
          let (all, k', covered) =
            index_resources-Knows rest (res ∷ known) (add_reference ix res) final (Knows-add res k)
              (rw (fresh, index_resources) at e) in
          (
            all,
            k',
            λ r m. elim (covered r m) [
              | inl (Memᴰ.head same) ↦ inr (Memᴰ.head same)
              | inl (Memᴰ.tail old) ↦ inl old
              | inr new ↦ inr (Memᴰ.tail new)
            ],
          )
      | inr (old, used) ↦ cc (rw (used, index_resources) at e)
    ]

add_reference-new :
    (ix : Index) (res : Resource) (rest : List Resource)
    → All (λ other. (add_reference ix res).index (ref_of other) ≡ none) rest
    → All (λ other. ix.index (ref_of other) ≡ none) rest
      × All (λ r. ref_of res ≢ r) (map ref_of rest)
unfolding add_reference update
add_reference-new ix res [] h = (tt, tt)
add_reference-new ix res (other ∷ rest) h =
    let (old, others) = add_reference-new ix res rest h.1 in
    elim (Bool-cases (str_eq (ref_of res) (ref_of other))) [
      | inl same ↦ cc (rw same at h.0)
      | inr differs ↦ ((rw differs at h.0, old), (λ e. cc ((eq_iff _ _).1 e), others))
    ]

-- The first loop lets no reference pass twice.
pub index_resources-Distinct :
    (resources : List Resource) (ix final : Index)
    → index_resources ix resources ≡ ok final
    → All (λ res. ix.index (ref_of res) ≡ none) resources × Distinct (map ref_of resources)
unfolding index_resources
index_resources-Distinct [] ix final e = (tt, tt)
index_resources-Distinct (res ∷ rest) ix final e = elim (Option-cases (ix.index (ref_of res))) [
  | inl fresh ↦
      let (new, distinct) =
        index_resources-Distinct rest (add_reference ix res) final
          (rw (fresh, index_resources) at e) in
      let (old, others) = add_reference-new ix res rest new in ((fresh, old), (others, distinct))
  | inr (old, used) ↦ cc (rw (used, index_resources) at e)
]
