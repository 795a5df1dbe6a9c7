-- ===== src/Guard/Warnings.antt =====
-- Which keys checkTopLevelKeys warns of.
use text.Mathlib.TextEquality.{Char-path}
use syver.Prelude.{
  Bool, not, ◌&&◌, arith, ap, ◌∙◌, String, concat, str_eq, eq_iff, any, sym, refl, false, ◌≡◌, ◌↔◌,
  inl, inr, true, List, [], ◌∷◌, some, Memᴰ, Bool-cases,
}
use syver.Guard.{
  Node, Kind, Document, Warning, mapping, scalar, is_extension, suggest_key, is_scalar,
  value_has_anchor, other_kind, warns, warning_for, check_pairs, check_top_level_keys,
}

-- The pair is one of the key and value pairs of the sequence.
pub data PairIn (k v : Node) : List Node → Type 0 where
  here : {rest : List Node} → PairIn k v (k ∷ v ∷ rest)
  later : {k' v' : Node} {rest : List Node} → PairIn k v rest → PairIn k v (k' ∷ v' ∷ rest)

module _ (sorted : List String → List String) (legal : List String) (path : String) where
  -- The warning is the one for the key of a pair that calls for it.
  abbrev Picked : List Node → Warning → Type 0
  Picked content w =
      (k : Node) × (v : Node) × PairIn k v content
      × (warns sorted legal path k v ≡ true)
      × (w ≡ warning_for sorted legal path k)

  check_pairs_to :
      (content : List Node) (w : Warning)
      → Memᴰ w (check_pairs sorted legal path content)
      → Picked content w
  unfolding check_pairs
  check_pairs_to [] w m = elim m [ ]
  check_pairs_to (k ∷ []) w m = elim m [ ]
  check_pairs_to (k ∷ v ∷ content) w m = elim (Bool-cases (warns sorted legal path k v)) [
    | inl h ↦ elim (rw h at m) [
      | Memᴰ.head e ↦ (k, v, here, h, e)
      | Memᴰ.tail m' ↦
          let (k', v', p, h', e) = check_pairs_to content w m' in (k', v', later p, h', e)
    ]
    | inr h ↦
        let (k', v', p, h', e) = check_pairs_to content w (rw h at m) in (k', v', later p, h', e)
  ]

  check_pairs_from :
      (content : List Node) (w : Warning) (k v : Node)
      → PairIn k v content
      → warns sorted legal path k v ≡ true
      → w ≡ warning_for sorted legal path k
      → Memᴰ w (check_pairs sorted legal path content)
  unfolding check_pairs
  check_pairs_from [] w k v p h e = elim p [ ]
  check_pairs_from (k' ∷ []) w k v p h e = elim p [ ]
  check_pairs_from (_ ∷ _ ∷ rest) w k v here h e = rw h (Memᴰ.head e)
  check_pairs_from (k' ∷ v' ∷ rest) w k v (later p) h e =
      elim (Bool-cases (warns sorted legal path k' v')) [
        | inl h' ↦ rw h' (Memᴰ.tail (check_pairs_from rest w k v p h e))
        | inr h' ↦ rw h' (check_pairs_from rest w k v p h e)
      ]

-- The key of an extension begins with "x-".
abbrev pub Extension : String → Type 0
Extension key = (rest : String) × (key ≡ concat "x-" rest)

-- The warning is for the key of one of the pairs: a scalar that is no legal key and no extension, in
-- front of a value without an anchor. It has the file's path, the line and the text of the key, and
-- the legal key that is suggested for it.
pub record WarnedOf (sorted : List String → List String) (legal : List String) (path : String)
    (content : List Node) (w : Warning) : Type 0 where
  pub k : Node
  pub v : Node
  pub pair : PairIn k v content
  pub is_key : k.kind ≡ scalar
  pub unknown : ¬ Memᴰ k.value legal
  pub no_extension : ¬ Extension k.value
  pub no_anchor : v.anchor ≡ ""
  pub in_file : w.path ≡ path
  pub at_line : w.line ≡ k.line
  pub named : w.key ≡ k.value
  pub suggested : w.suggestion ≡ suggest_key sorted k.value legal

legal_of_any :
    (key : String) (legal : List String) → any (λ k. str_eq k key) legal ≡ true → Memᴰ key legal
legal_of_any key [] h = cc
legal_of_any key (k ∷ ks) h = elim (Bool-cases (str_eq k key)) [
  | inl same ↦ Memᴰ.head (sym ((eq_iff k key).0 same))
  | inr other ↦ Memᴰ.tail (legal_of_any key ks (rw other at h))
]

any_of_legal :
    (key : String) (legal : List String) → Memᴰ key legal → any (λ k. str_eq k key) legal ≡ true
any_of_legal key [] m = elim m [ ]
any_of_legal key (k ∷ ks) (Memᴰ.head e) = rw ((eq_iff k key).1 (sym e)) refl
any_of_legal key (k ∷ ks) (Memᴰ.tail m) = elim (Bool-cases (str_eq k key)) [
  | inl same ↦ rw same refl
  | inr other ↦ rw other (any_of_legal key ks m)
]

is_extension-Extension : (key : String) → is_extension key ≡ true → Extension key
unfolding is_extension concat
is_extension-Extension String.[] h = cc
is_extension-Extension (String.◌∷◌ c String.[]) h = cc
is_extension-Extension (String.◌∷◌ c (String.◌∷◌ d s)) h = (
  s,
  ap (λ x. String.◌∷◌ x (String.◌∷◌ d s)) (Char-path c "x" (ground (arith, h)))
      ∙ ap (λ y. String.◌∷◌ "x" (String.◌∷◌ y s)) (Char-path d "-" (ground (arith, h))),
)

Extension-is_extension : (key : String) → Extension key → is_extension key ≡ true
unfolding is_extension concat
Extension-is_extension key (rest, e) = rw e refl

scalar_of : (kind : Kind) → is_scalar kind ≡ true → kind ≡ scalar
scalar_of scalar h = refl
scalar_of mapping h = cc
scalar_of other_kind h = cc

-- `warns` says which pairs call for a warning.
module _ (sorted : List String → List String) (legal : List String) (path : String) where
  Calls : Node → Node → Type 0
  Calls k v = (k.kind ≡ scalar) × (¬ Memᴰ k.value legal) × (¬ Extension k.value) × (v.anchor ≡ "")

  no_anchor_of : (v : Node) → value_has_anchor v ≡ false → v.anchor ≡ ""
  unfolding value_has_anchor
  no_anchor_of v h = elim (Bool-cases (str_eq v.anchor "")) [
    | inl empty ↦ (eq_iff v.anchor "").0 empty
    | inr full ↦ absurd (cc (full, h))
  ]

  all_four :
      (a b c d : Bool)
      → (a && not b && not c && not d) ≡ true
      → (a ≡ true) × (b ≡ false) × (c ≡ false) × (d ≡ false)
  all_four a b c d h = ground (arith, h)

  warns-Calls : (k v : Node) → warns sorted legal path k v ≡ true → Calls k v
  unfolding warns Calls
  warns-Calls k v h =
      let (a, b, c, d) =
        all_four (is_scalar k.kind) (any (λ x. str_eq x k.value) legal) (is_extension k.value)
          (value_has_anchor v) h in
      (
        scalar_of k.kind a,
        (λ m. cc (b, any_of_legal k.value legal m)),
        (λ e. cc (c, Extension-is_extension k.value e)),
        no_anchor_of v d,
      )

  is_false : (b : Bool) → ¬ (b ≡ true) → b ≡ false
  is_false true h = absurd (h refl)
  is_false false h = refl

  Calls-warns : (k v : Node) → Calls k v → warns sorted legal path k v ≡ true
  unfolding warns Calls value_has_anchor
  Calls-warns k v (a, b, c, d) =
      rw
        (
          a,
          is_false (any (λ x. str_eq x k.value) legal) (λ h. b (legal_of_any k.value legal h)),
          is_false (is_extension k.value) (λ h. c (is_extension-Extension k.value h)),
          d,
        )
        refl

same_warning :
    {w w' : Warning}
    → w.path ≡ w'.path
    → w.line ≡ w'.line
    → w.key ≡ w'.key
    → w.suggestion ≡ w'.suggestion
    → w ≡ w'
same_warning a b c d = λ i. record { path = a i; line = b i; key = c i; suggestion = d i }

-- For a document whose top level is a mapping, the warnings are exactly those for its pairs whose
-- key is a scalar, not a legal key and without the prefix "x-", and whose value has no anchor of
-- its own; each has the path of the file, the line and text of the key, and the key suggested for it.
pub check_top_level_keys_lem :
    (sorted : List String → List String) (legal : List String) (path : String) (doc : Document)
    (docs : List Document) (w : Warning)
    → doc.kind ≡ mapping
    → Memᴰ w (check_top_level_keys sorted legal path (some (doc ∷ docs)))
      ↔ WarnedOf sorted legal path doc.content w
unfolding check_top_level_keys Calls warning_for
check_top_level_keys_lem sorted legal path doc docs w h = simp h (
  (λ m.
      let (k, v, pair, warned, e) = check_pairs_to sorted legal path doc.content w m in
      let (is_key, unknown, no_extension, no_anchor) = warns-Calls sorted legal path k v warned in
      record {
        k = k;
        v = v;
        pair = pair;
        is_key = is_key;
        unknown = unknown;
        no_extension = no_extension;
        no_anchor = no_anchor;
        in_file = ap (λ x. x.path) e;
        at_line = ap (λ x. x.line) e;
        named = ap (λ x. x.key) e;
        suggested = ap (λ x. x.suggestion) e;
      }),
  λ q.
      check_pairs_from sorted legal path doc.content w q.k q.v q.pair
        (Calls-warns sorted legal path q.k q.v (q.is_key, q.unknown, q.no_extension, q.no_anchor))
        (same_warning q.in_file q.at_line q.named q.suggested),
)
