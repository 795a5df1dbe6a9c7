-- ===== src/Matchers/Groups.antt =====
-- matchers/and.go, or.go, not.go: how the groups of matchers answer.
use mathlib.Core.Logic.{∥∥₁_elim}
use mathlib.Core.List.{Perm}
use mathlib.Core.List.Perm
use syver.Prelude.{
  String, ◌≡◌, refl, sym, ◌∙◌, ap, ◌↔◌, Bool, true, false, List, [], ◌∷◌, map, All, All-mem,
  All-of_mem, Option, none, some,
}
use syver.Value.{Value}
use syver.Matchers.Transforms.{Formats}
use syver.Matchers.{
  Answer, SyverMatchers, no_matchers, matchers, negation, conjunction, disjunction, Leaves,
  not_match, and_match, and_step, or_match, or_step, match, match_each,
}

abbrev opposite : (Value → Answer) → Value → Answer
opposite m actual = not_match (m actual)

-- An `and` that is negated answers as the `or` of the negations, and the other way round.
not_match-and_step :
    (a rest : Answer) → not_match (and_step a rest) ≡ or_step (not_match a) (not_match rest)
unfolding not_match
not_match-and_step (true, none) rest = refl
not_match-and_step (true, some e) rest = refl
not_match-and_step (false, none) rest = refl
not_match-and_step (false, some e) rest = refl

not_match-or_step :
    (a rest : Answer) → not_match (or_step a rest) ≡ and_step (not_match a) (not_match rest)
unfolding not_match
not_match-or_step (true, none) rest = refl
not_match-or_step (true, some e) rest = refl
not_match-or_step (false, none) rest = refl
not_match-or_step (false, some e) rest = refl

not_match-and_match :
    (ms : List (Value → Answer)) (actual : Value)
    → not_match (and_match ms actual) ≡ or_match (map opposite ms) actual
unfolding and_match or_match not_match
not_match-and_match [] actual = refl
not_match-and_match (m ∷ ms) actual =
    not_match-and_step (m actual) (and_match ms actual)
    ∙ ap (or_step (not_match (m actual))) (not_match-and_match ms actual)

not_match-or_match :
    (ms : List (Value → Answer)) (actual : Value)
    → not_match (or_match ms actual) ≡ and_match (map opposite ms) actual
unfolding and_match or_match not_match
not_match-or_match [] actual = refl
not_match-or_match (m ∷ ms) actual =
    not_match-or_step (m actual) (or_match ms actual)
    ∙ ap (and_step (not_match (m actual))) (not_match-or_match ms actual)

-- The negations of some matchers.
abbrev pub negations : SyverMatchers → SyverMatchers
negations no_matchers = no_matchers
negations (matchers m ms) = matchers (negation m) (negations ms)

and_step-success :
    (a rest : Answer) → ((and_step a rest).0 ≡ true) ↔ ((a ≡ (true, none)) × (rest.0 ≡ true))
and_step-success (true, none) rest = ((λ h. (refl, h)), λ h. h.1)
and_step-success (true, some e) rest = ((λ h. cc h), λ h. cc (h.0))
and_step-success (false, e) rest = ((λ h. cc h), λ h. cc (h.0))

and_match-success :
    (ms : List (Value → Answer)) (actual : Value)
    → ((and_match ms actual).0 ≡ true) ↔ All (λ m. m actual ≡ (true, none)) ms
unfolding and_match
and_match-success [] actual = ((λ h. tt), λ h. refl)
and_match-success (m ∷ ms) actual =
    let (to, from) = and_step-success (m actual) (and_match ms actual) in
    let (every, whole) = and_match-success ms actual in
    ((λ h. ((to h).0, every (to h).1)), λ (first, rest). from (first, whole rest))

same_bool : (b c : Bool) → (b ≡ true → c ≡ true) → (c ≡ true → b ≡ true) → b ≡ c
same_bool true c to from = sym (to refl)
same_bool false true to from = from refl
same_bool false false to from = refl

abbrev accepts : Answer → Bool
accepts (success, none) = success
accepts (success, some e) = false

accepts_iff : (a : Answer) → (accepts a ≡ true) ↔ (a ≡ (true, none))
accepts_iff (true, none) = ((λ h. refl), λ h. refl)
accepts_iff (false, none) = ((λ h. cc h), λ h. cc h)
accepts_iff (success, some e) = ((λ h. cc h), λ h. cc h)

Bool-IsSet : IsSet Bool
Bool-IsSet = hlevel

-- What one order accepts the other does.
and_match-Perm :
    (ms ns : List (Value → Answer)) (actual : Value)
    → Perm ms ns
    → (and_match ms actual).0 ≡ true
    → (and_match ns actual).0 ≡ true
and_match-Perm ms ns actual p h = (and_match-success ns actual).1 (
    All-of_mem (λ m. m actual ≡ (true, none)) ns
      λ m mem. (accepts_iff (m actual)).0 (
        ∥∥₁_elim (Perm.subset (Perm.symm p) m ∣ mem ∣₁) (Bool-IsSet _ _) λ there.
          (accepts_iff (m actual)).1
            (All-mem (λ f. f actual ≡ (true, none)) there ((and_match-success ms actual).0 h))))

module _ (formats : Formats) (leaves : Leaves) (Version : Type 0) (parse : String → Option Version)
    (parse_range : String → Option (Version → Bool)) where
  match_each-negations :
      (ms : SyverMatchers)
      → match_each formats leaves Version parse parse_range (negations ms)
        ≡ map opposite (match_each formats leaves Version parse parse_range ms)
  unfolding match
  match_each-negations no_matchers = refl
  match_each-negations (matchers m ms) =
      ap (λ rest. opposite (match formats leaves Version parse parse_range m) ∷ rest)
        (match_each-negations ms)

  -- The negation of an `and` answers, with its error, as the `or` of the negated matchers does at
  -- every value, and the negation of an `or` as the `and` of them.
  pub negation_groups :
      (ms : SyverMatchers) (actual : Value)
      → (match formats leaves Version parse parse_range (negation (conjunction ms)) actual
          ≡ match formats leaves Version parse parse_range (disjunction (negations ms)) actual)
        × (match formats leaves Version parse parse_range (negation (disjunction ms)) actual
            ≡ match formats leaves Version parse parse_range (conjunction (negations ms)) actual)
  unfolding match
  negation_groups ms actual =
      let every = match_each formats leaves Version parse parse_range ms in
      (
        not_match-and_match every actual
            ∙ ap (λ fs. or_match fs actual) (sym (match_each-negations ms)),
        not_match-or_match every actual
            ∙ ap (λ fs. and_match fs actual) (sym (match_each-negations ms)),
      )

  -- The verdict of an `and` does not depend on the order of its matchers, as that of `gjson` must
  -- not, whose matchers come in the order of a map.
  pub conjunction_order :
      (ms ns : SyverMatchers) (actual : Value)
      → Perm
          (match_each formats leaves Version parse parse_range ms)
          (match_each formats leaves Version parse parse_range ns)
      → (match formats leaves Version parse parse_range (conjunction ms) actual).0
        ≡ (match formats leaves Version parse parse_range (conjunction ns) actual).0
  unfolding match
  conjunction_order ms ns actual p =
      same_bool _ _ (and_match-Perm _ _ actual p) (and_match-Perm _ _ actual (Perm.symm p))
