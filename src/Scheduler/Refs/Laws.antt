-- ===== src/Scheduler/Refs/Laws.antt =====
-- What a resolved prerequisite refers to.
use Prim.Native.Char.{code}
use text.Mathlib.TextEquality.{Char-path}
use syver.Prelude.{
  String, concat, true, false, ◌≡◌, ◌≢◌, ◌↔◌, refl, ◌⊎◌, inl, inr, List, [], ◌∷◌, Option, ok, ◌==◌,
  Bool-cases, arith, ap, eq_iff, str_eq_of_ne,
}
use syver.Resource.{Resource}
use syver.Scheduler.Refs.{
  contains_colon, split_colon, is_some, resolve_parts, resolve_key, resolve_dependency_ref,
}

-- A text with a colon is split in two, and the parts with the colon between them are the text.
pub split_colon_parts :
    (s : String)
    → contains_colon s ≡ true
    → (t : String) × (key : String) × (split_colon s ≡ t ∷ key ∷ [])
      × (concat t (concat ":" key) ≡ s)
unfolding contains_colon split_colon concat
split_colon_parts String.[] h = cc
split_colon_parts (String.◌∷◌ c s) h = elim (Bool-cases (code c == b':')) [
  | inl colon ↦
      ("", s, rw colon refl, ap (λ x. String.◌∷◌ x s) (Char-path ":" c (ground (arith, colon))))
  | inr other ↦
      let (t, key, split, joined) = split_colon_parts s (ground (arith, other)) in
      (String.◌∷◌ c t, key, rw (other, split) refl, ap (String.◌∷◌ c) joined)
]

module _ (index : String → Option Resource) (refs_by_key : String → List String) where
  resolve_parts-eq-ok :
      (dep t key : String) {ref : String}
      → concat t (concat ":" key) ≡ dep
      → resolve_parts dep (t ∷ key ∷ []) index ≡ ok ref
      → (ref ≡ dep) × (is_some (index ref) ≡ true)
  unfolding resolve_parts
  resolve_parts-eq-ok dep t key {ref} joined e = (ground arith, ground arith)

  resolve_key-eq-ok :
      (dep : String) (matches : List String) {ref : String}
      → resolve_key dep matches ≡ ok ref
      → matches ≡ ref ∷ []
  unfolding resolve_key
  resolve_key-eq-ok dep [] e = cc
  resolve_key-eq-ok dep (m ∷ []) e = cc
  resolve_key-eq-ok dep (m ∷ m' ∷ ms) e = cc

  -- A resolved prerequisite is the text itself, known to the index, or the one reference that has
  -- the text for a key.
  abbrev pub Resolves : String → String → Type 0
  Resolves dep ref =
      ((contains_colon dep ≡ true) × (ref ≡ dep) × (is_some (index ref) ≡ true))
      ⊎ ((contains_colon dep ≡ false) × (refs_by_key dep ≡ ref ∷ []))

  pub resolve-Resolves :
      (dep : String) {ref : String}
      → resolve_dependency_ref dep index refs_by_key ≡ ok ref
      → Resolves dep ref
  unfolding resolve_dependency_ref
  resolve-Resolves dep {ref} e = elim (Bool-cases (contains_colon dep)) [
    | inl colon ↦
        let (t, key, split, joined) = split_colon_parts dep colon in
        let (same, known) = resolve_parts-eq-ok dep t key joined (rw (colon, split) at e) in
        inl (colon, same, known)
    | inr bare ↦ inr (bare, resolve_key-eq-ok dep (refs_by_key dep) (rw bare at e))
  ]

  -- The texts that the `type:key` branch accepts: both parts are there, and the index has the text.
  pub record FullReference (dep : String) : Type 0 where
    pub type_part : String
    pub key_part : String
    pub split : split_colon dep ≡ type_part ∷ key_part ∷ []
    pub has_type : type_part ≢ ""
    pub has_key : key_part ≢ ""
    pub known : is_some (index dep) ≡ true

  resolve_parts-full :
      (dep t key : String) {ref : String}
      → resolve_parts dep (t ∷ key ∷ []) index ≡ ok ref
      → (t ≢ "") × (key ≢ "")
  unfolding resolve_parts
  resolve_parts-full dep t key {ref} e = (
    λ h. ground (arith, eq_iff t "", eq_iff key ""),
    λ h. ground (arith, eq_iff t "", eq_iff key ""),
  )

  resolve_parts-ok :
      (dep t key : String)
      → concat t (concat ":" key) ≡ dep
      → t ≢ ""
      → key ≢ ""
      → is_some (index dep) ≡ true
      → resolve_parts dep (t ∷ key ∷ []) index ≡ ok dep
  unfolding resolve_parts
  resolve_parts-ok dep t key joined ht hk found =
      rw (str_eq_of_ne t "" ht, str_eq_of_ne key "" hk, joined, found) refl

  abbrev pub Reference : String → String → Type 0
  Reference dep ref =
      ((contains_colon dep ≡ true) × FullReference dep × (ref ≡ dep))
      ⊎ ((contains_colon dep ≡ false) × (refs_by_key dep ≡ ref ∷ []))

  resolve_to :
      (dep : String) {ref : String}
      → resolve_dependency_ref dep index refs_by_key ≡ ok ref
      → Reference dep ref
  unfolding resolve_dependency_ref
  resolve_to dep {ref} e = elim (resolve-Resolves dep e) [
    | inr bare ↦ inr bare
    | inl (colon, same, found) ↦
        let (t, key, split, joined) = split_colon_parts dep colon in
        let (ht, hk) = resolve_parts-full dep t key (rw (colon, split) at e) in
        inl (
          colon,
          record {
            type_part = t;
            key_part = key;
            split = split;
            has_type = ht;
            has_key = hk;
            known = rw same at found;
          },
          same,
        )
  ]

  resolve_from :
      (dep : String) {ref : String}
      → Reference dep ref
      → resolve_dependency_ref dep index refs_by_key ≡ ok ref
  unfolding resolve_dependency_ref resolve_key
  resolve_from dep (inr (bare, one)) = rw (bare, one) refl
  resolve_from dep {ref} (inl (colon, full, same)) =
      let (t, key, split, joined) = split_colon_parts dep colon in
      let ht : t ≢ "" = λ h. full.has_type (cc (full.split, split)) in
      let hk : key ≢ "" = λ h. full.has_key (cc (full.split, split)) in
      rw (colon, split, same) (resolve_parts-ok dep t key joined ht hk full.known)

-- A prerequisite resolves to a reference exactly in two cases. With a colon in it, it has to be a
-- reference in full, of a known resource, with both parts there, whatever keys there are. Without a
-- colon, it has to be the key of one resource and no other.
pub resolve_dependency_ref_iff :
    (index : String → Option Resource) (refs_by_key : String → List String) (dep ref : String)
    → (resolve_dependency_ref dep index refs_by_key ≡ ok ref) ↔ Reference index refs_by_key dep ref
resolve_dependency_ref_iff index refs_by_key dep ref =
    (resolve_to index refs_by_key dep, resolve_from index refs_by_key dep)
