-- ===== src/Discovery/Registers.antt =====
-- What Entries lets through: every resource has a register, and no two share one.
use mathlib.Core.List.Memᴰ as MemD
use mathlib.Core.List.{append_assoc, append-nil}
use syver.Prelude.{
  String, str_eq, ◌≡◌, ◌≢◌, sym, subst, ◌∙◌, ap, inl, inr, true, false, List, [], ◌∷◌, ◌++◌, Memᴰ,
  any, Result, ok, err, Bool-cases, eq_iff, arith,
}
use syver.Discovery.{DiscoveryEntry, DiscoveryError, entries_from}

-- Registers are given, and entries with the same register are the same.
pub record Registered (entries : List DiscoveryEntry) : Type 0 where
  pub named : (e : DiscoveryEntry) → Memᴰ e entries → e.register ≢ ""
  pub apart :
      (e e' : DiscoveryEntry) → Memᴰ e entries → Memᴰ e' entries → e.register ≡ e'.register → e ≡ e'

none_shares :
    (r : String) (entries : List DiscoveryEntry)
    → any (λ (existing : DiscoveryEntry). str_eq existing.register r) entries ≡ false
    → (e : DiscoveryEntry) → Memᴰ e entries
    → e.register ≢ r
none_shares r (x ∷ xs) h e (Memᴰ.head same) eq =
    let hit : str_eq x.register r ≡ true =
      (eq_iff x.register r).1 (ap (λ (d : DiscoveryEntry). d.register) (sym same) ∙ eq) in
    ground (arith, h, hit)
none_shares r (x ∷ xs) h e (Memᴰ.tail m) eq = none_shares r xs (ground (arith, h)) e m eq
none_shares r [] h e m eq = elim m [ ]

Registered-snoc :
    (entries : List DiscoveryEntry) (t : DiscoveryEntry)
    → t.register ≢ ""
    → any (λ (existing : DiscoveryEntry). str_eq existing.register t.register) entries ≡ false
    → Registered entries
    → Registered (entries ++ t ∷ [])
Registered-snoc entries t name fresh r = record {
  named = λ e m. elim (MemD.append_cases entries m) [
    | inl old ↦ r.named e old
    | inr new ↦ λ empty. name (sym (ap (λ (d : DiscoveryEntry). d.register) (only e new)) ∙ empty)
  ];
  apart = λ e e' m m' same. elim (MemD.append_cases entries m) [
    | inl old ↦ elim (MemD.append_cases entries m') [
      | inl old' ↦ r.apart e e' old old' same
      | inr new' ↦ absurd (
          none_shares t.register entries fresh e old
            (same ∙ ap (λ (d : DiscoveryEntry). d.register) (only e' new')))
    ]
    | inr new ↦ elim (MemD.append_cases entries m') [
      | inl old' ↦ absurd (
          none_shares t.register entries fresh e' old'
            (sym same ∙ ap (λ (d : DiscoveryEntry). d.register) (only e new)))
      | inr new' ↦ only e new ∙ sym (only e' new')
    ]
  ];
}
  where
    only : (e : DiscoveryEntry) → Memᴰ e (t ∷ []) → e ≡ t
    only e (Memᴰ.head p) = p
    only e (Memᴰ.tail m) = elim m [ ]

pub entries_from-Registered :
    (entries given final : List DiscoveryEntry)
    → Registered entries
    → entries_from entries given ≡ ok final
    → Registered final × (final ≡ entries ++ given)
unfolding entries_from
entries_from-Registered entries [] final r e =
    let same : entries ≡ final = cc in
    (subst Registered same r, sym same ∙ sym (append-nil entries))
entries_from-Registered entries (t ∷ given) final r e = elim (Bool-cases (str_eq t.register "")) [
  | inl empty ↦
      let no : Path (Result DiscoveryError (List DiscoveryEntry)) (err _) (ok final) =
        rw empty at e in
      cc
  | inr name ↦
      elim (Bool-cases
        (any (λ (existing : DiscoveryEntry). str_eq existing.register t.register) entries)) [
          | inl taken ↦
              let no : Path (Result DiscoveryError (List DiscoveryEntry)) (err _) (ok final) =
                rw (name, taken) at e in
              cc
          | inr fresh ↦
              let (done, same) =
                entries_from-Registered (entries ++ t ∷ []) given final
                  (Registered-snoc entries t (λ h. cc ((eq_iff t.register "").1 h, name)) fresh r)
                  (rw (name, fresh) at e) in
              (done, same ∙ append_assoc entries (t ∷ []) given)
        ]
]

pub Registered-nil : Registered []
Registered-nil = record { named = λ e m. elim m [ ]; apart = λ e e' m m' same. elim m [ ] }
