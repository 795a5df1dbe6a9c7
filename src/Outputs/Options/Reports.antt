-- ===== src/Outputs/Options/Reports.antt =====
-- outputs/outputs.go: what CheckFormatOptions reports.
use syver.Prelude.{
  String, ◌≡◌, refl, sym, ◌∙◌, inl, inr, Bool, false, not, List, [], ◌∷◌, ◌++◌, Option, Bool-cases,
  Option-cases, if◌then◌else◌,
}
use mathlib.Core.List.{append_assoc, append-nil}
use syver.Outputs.Options.{
  is_value_in_list, is_ignored, Checked, check_options, check_format_options, format_options,
  valid_options_for, normalize_format_options,
}

abbrev pub select : (String → Bool) → List String → List String
select p [] = []
select p (s ∷ ss) = if p s then s ∷ select p ss else select p ss

module _ (sorted : List String → List String) (equal_fold : String → String → Bool) where
  -- The options of a list that were not seen before, in any case, each under its first spelling.
  abbrev pub firsts : List String → List String → List String
  firsts seen [] = []
  firsts seen (opt ∷ opts) =
      if is_value_in_list sorted equal_fold opt seen
      then firsts seen opts
      else opt ∷ firsts (seen ++ opt ∷ []) opts

  module _ (all : List String) (own : Option (List String)) where
    -- What no format has is not ignored.
    absent_ignored :
        (opt : String)
        → is_value_in_list sorted equal_fold opt all ≡ false
        → is_ignored sorted equal_fold all own opt ≡ false
    unfolding is_ignored
    absent_ignored opt h = elim (Option-cases own) [
      | inl none_there ↦ rw none_there refl
      | inr (names, there) ↦ rw (there, h) refl
    ]

    abbrev no_format : String → Bool
    no_format opt = not (is_value_in_list sorted equal_fold opt all)

    abbrev other_format : String → Bool
    other_format opt = is_ignored sorted equal_fold all own opt

    abbrev Reports : List String → Checked → Checked → Type 0
    Reports opts c d =
        (d.unknown ≡ c.unknown ++ select no_format (firsts c.seen opts))
        × (d.ignored ≡ c.ignored ++ select other_format (firsts c.seen opts))

    check_options-Reports :
        (opts : List String) (c : Checked)
        → Reports opts c (check_options sorted equal_fold all own opts c)
    unfolding check_options
    check_options-Reports [] c = (sym (append-nil c.unknown), sym (append-nil c.ignored))
    check_options-Reports (opt ∷ opts) c =
        let next = record c { seen = c.seen ++ opt ∷ [] } in
        elim (Bool-cases (is_value_in_list sorted equal_fold opt c.seen)) [
          | inl seen ↦ rw (seen, check_options) (check_options-Reports opts c)
          | inr new ↦ elim (Bool-cases (is_value_in_list sorted equal_fold opt all)) [
            | inr absent ↦
                let (to_unknown, to_ignored) =
                  check_options-Reports opts (record next { unknown = c.unknown ++ opt ∷ [] }) in
                rw (new, absent, absent_ignored opt absent, check_options)
                  (to_unknown ∙ append_assoc c.unknown (opt ∷ []) _, to_ignored)
            | inl known ↦ elim (Bool-cases (other_format opt)) [
              | inl other ↦
                  let (to_unknown, to_ignored) =
                    check_options-Reports opts (record next { ignored = c.ignored ++ opt ∷ [] }) in
                  rw (new, known, other, check_options)
                    (to_unknown, to_ignored ∙ append_assoc c.ignored (opt ∷ []) _)
              | inr honoured ↦
                  rw (new, known, honoured, check_options) (check_options-Reports opts next)
            ]
          ]
        ]

  -- The options are looked at once each, without regard to case and to surrounding blanks, under
  -- their first spelling: those that no format has are unknown, and those that another format has,
  -- and the given one, which is a format, has not, are ignored.
  pub check_format_options_lem :
      (format : String) (opts : List String)
      → check_format_options sorted equal_fold format opts ≡ (
        select
            (no_format (format_options sorted) (valid_options_for sorted format))
            (firsts [] (normalize_format_options opts)),
        select
            (other_format (format_options sorted) (valid_options_for sorted format))
            (firsts [] (normalize_format_options opts)),
      )
  unfolding check_format_options
  check_format_options_lem format opts =
      let (unknown, ignored) =
        check_options-Reports (format_options sorted) (valid_options_for sorted format)
          (normalize_format_options opts) (record { seen = []; unknown = []; ignored = [] }) in
      λ i. (unknown i, ignored i)
