-- ===== src/Resource/Skips/Laws.antt =====
-- Skip reasons: who gets one, and what they leave alone.
use syver.Prelude.{
  String, concat, str_eq, ◌≡◌, refl, sym, ◌∙◌, ap, ◌≢◌, ◌↔◌, ◌⊎◌, inl, inr, true, false, List, [],
  ◌∷◌, Option, All, Bool-cases, arith, eq_iff,
}
use syver.Value.{is_false}
use syver.Resource.Results.{TestResult}
use syver.Resource.Skips.{
  should_skip, promoted_skip_reason, annotate, annotate_all, reason_from, annotate_skip_reasons,
  not_passed,
}

concat-ne-empty : (s t : String) → t ≢ "" → concat s t ≢ ""
unfolding concat
concat-ne-empty String.[] t h e = h e
concat-ne-empty (String.◌∷◌ c s) t h e = cc

not_pass_text : (s : String) → concat s " did not pass" ≢ ""
not_pass_text s = concat-ne-empty s " did not pass" (ground (arith, eq_iff " did not pass" ""))

false_text : (s : String) → concat s " is false" ≢ ""
false_text s = concat-ne-empty s " is false" (ground (arith, eq_iff " is false" ""))

-- A result whose checks are promoted to skipped is exactly one that has a promoted reason.
pub should_skip_iff_reason :
    (first : TestResult) (rest : List TestResult)
    → (should_skip (first ∷ rest) ≡ true) ↔ (promoted_skip_reason first ≢ "")
unfolding should_skip promoted_skip_reason
should_skip_iff_reason first rest = elim (Bool-cases (not_passed first)) [
  | inl failed ↦ rw failed ((λ h. not_pass_text first.property), (λ h. refl))
  | inr ran ↦ elim (Bool-cases (is_false first.matcher_result.actual)) [
    | inl off ↦ rw (ran, off) ((λ h. false_text first.property), (λ h. refl))
    | inr on ↦ rw (ran, on) ((λ h. cc), (λ h. absurd (h refl)))
  ]
]

-- How annotating with a reason relates a result to the one in its place.
pub record Annotated (reason : String) (before after : TestResult) : Type 0 where
  pub rest_kept : record after { skip_reason = before.skip_reason } ≡ before
  pub filled : before.skipped ≡ true → before.skip_reason ≡ "" → after.skip_reason ≡ reason
  pub reason_kept : (before.skipped ≡ false) ⊎ (before.skip_reason ≢ "") → after ≡ before

annotate-Annotated : (reason : String) (t : TestResult) → Annotated reason t (annotate reason t)
unfolding annotate
annotate-Annotated reason t = record {
  rest_kept = ground (arith, eq_iff t.skip_reason "");
  filled = ground (arith, eq_iff t.skip_reason "");
  reason_kept = ground (arith, eq_iff t.skip_reason "");
}

-- The two lists are as long, and their members are related place by place.
abbrev pub Zip : (TestResult → TestResult → Type 0) → List TestResult → List TestResult → Type 0
Zip R [] [] = Unit {0}
Zip R (x ∷ xs) (y ∷ ys) = R x y × Zip R xs ys
Zip R _ _ = ⊥

annotate_all-Zip :
    (reason : String) (ts : List TestResult) → Zip (Annotated reason) ts (annotate_all reason ts)
unfolding annotate_all
annotate_all-Zip reason [] = tt
annotate_all-Zip reason (t ∷ ts) = (annotate-Annotated reason t, annotate_all-Zip reason ts)

unchanged : (reason : String) → reason ≡ "" → (ts : List TestResult) → Zip (Annotated reason) ts ts
unchanged reason empty [] = tt
unchanged reason empty (t ∷ ts) = (
  record { rest_kept = refl; filled = λ h e. e ∙ sym empty; reason_kept = λ h. refl },
  unchanged reason empty ts,
)

-- Annotating keeps the number, the order and every other field of the results; a skipped result
-- with no reason gets the reason that the first result calls for, and any other result is kept.
pub annotate_skip_reasons_lem :
    (own : Option String) (first : TestResult) (rest : List TestResult)
    → Zip
        (Annotated (reason_from own first))
        (first ∷ rest)
        (annotate_skip_reasons own (first ∷ rest))
unfolding annotate_skip_reasons
annotate_skip_reasons_lem own first rest = elim (Bool-cases (str_eq (reason_from own first) "")) [
  | inl empty ↦ rw empty (unchanged (reason_from own first) ((eq_iff _ _).0 empty) (first ∷ rest))
  | inr given ↦ rw given (annotate_all-Zip (reason_from own first) (first ∷ rest))
]

explained :
    (reason : String) (before after : List TestResult)
    → reason ≢ ""
    → Zip (Annotated reason) before after
    → All (λ t. t.skipped ≡ true → t.skip_reason ≢ "") after
explained reason [] [] h z = tt
explained reason [] (y ∷ ys) h z = elim z [ ]
explained reason (x ∷ xs) [] h z = elim z [ ]
explained reason (x ∷ xs) (y ∷ ys) h z = (
  λ skipped empty. elim (Bool-cases (str_eq x.skip_reason "")) [
    | inl none_before ↦ h (
        sym (
          z.0.filled (ap (λ t. t.skipped) (sym z.0.rest_kept) ∙ skipped)
            ((eq_iff _ _).0 none_before))
        ∙ empty)
    | inr before ↦
        let kept : x.skip_reason ≢ "" = λ e. cc ((eq_iff _ _).1 e) in
        kept (ap (λ t. t.skip_reason) (sym (z.0.reason_kept (inr kept))) ∙ empty)
  ],
  explained reason xs ys h z.1,
)

-- When the first check of a resource ran, and did not pass or passed with a false value, every
-- skipped result of the resource says why it was skipped.
pub annotate_skip_reasons_explained :
    (own : Option String) (first : TestResult) (rest : List TestResult)
    → first.skipped ≡ false
    → should_skip (first ∷ rest) ≡ true
    → All (λ t. t.skipped ≡ true → t.skip_reason ≢ "") (annotate_skip_reasons own (first ∷ rest))
unfolding reason_from
annotate_skip_reasons_explained own first rest ran promoted =
    explained (reason_from own first) (first ∷ rest) _
      (simp ran ((should_skip_iff_reason first rest).0 promoted))
      (annotate_skip_reasons_lem own first rest)
