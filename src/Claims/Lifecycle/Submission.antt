-- ===== src/Claims/Lifecycle/Submission.antt =====
-- When a claim can be submitted (`check_can_submit` of claims/lifecycle.py on the outcomes of
-- policy/engine.py).
use expense_reimbursement_ta.Prelude.{
  ℕ, ◌≡◌, ◌↔◌, refl, true, false, not, ◌&&◌, Option, some, List, [], ◌∷◌, ◌++◌, map, arith,
  append_assoc, any, all, All, Bool-cases, inl, inr,
}
use expense_reimbursement_ta.Prelude.Dict.{Dict, lookup}
use expense_reimbursement_ta.Models.{ClaimLineStatus, line_held, is_held}
use expense_reimbursement_ta.Policy.Decision.{Decision, LineUnderReview, EvaluationContext}
use expense_reimbursement_ta.Policy.Engine.{
  LineOutcome, blocking_reasons, evaluate_lines, visit, rejected_outcome, memo_outcome,
  withdrawn_outcome,
}
use expense_reimbursement_ta.Policy.Engine.Amounts.{evaluate_one-status}
use expense_reimbursement_ta.Policy.Engine.Each.{evaluate_lines-All}
use expense_reimbursement_ta.Claims.Summary.{is_excluded}
use expense_reimbursement_ta.Claims.Lifecycle.{
  Blocking, line_blocked, no_reimbursable_lines, held_reasons, is_nil, check_can_submit,
}

-- A held line says what it is held for.
abbrev pub IsExplained : LineOutcome → Type 0
IsExplained o = line_held o.status ≡ true → any (λ d. is_held d.outcome) o.decisions ≡ true

visit-IsExplained :
    (preset : Option ClaimLineStatus) (line : LineUnderReview) (context : EvaluationContext)
    → IsExplained (visit preset line context).0
unfolding visit rejected_outcome memo_outcome withdrawn_outcome
visit-IsExplained (some ClaimLineStatus.rejected) line context h = cc
visit-IsExplained (some ClaimLineStatus.memo) line context h = cc
visit-IsExplained (some ClaimLineStatus.withdrawn) line context h = cc
visit-IsExplained _ line context h = (evaluate_one-status line context).0.0 (held_of h)
  where
    held_of : {s : ClaimLineStatus} → line_held s ≡ true → s ≡ ClaimLineStatus.held
    held_of h = ground arith

some_reason :
    (description : List ℕ) (ds : List Decision) (more : List Blocking)
    → any (λ d. is_held d.outcome) ds ≡ true
    → is_nil (map (line_blocked description) (blocking_reasons ds) ++ more) ≡ false
unfolding blocking_reasons
some_reason description [] more h = cc
some_reason description (d ∷ ds) more h = elim (Bool-cases (is_held d.outcome)) [
  | inl e ↦ rw e
  | inr e ↦ rw e (some_reason description ds more (ground arith))
]

-- The held reasons are all there is, or there is one of them.
held_reasons_iff :
    (outcomes : List LineOutcome) (more : List Blocking)
    → All IsExplained outcomes
    → is_nil (held_reasons outcomes ++ more)
      ≡ (all (λ o. not (line_held o.status)) outcomes && is_nil more)
unfolding held_reasons
held_reasons_iff [] more h = refl
held_reasons_iff (o ∷ rest) more h = elim (Bool-cases (line_held o.status)) [
  | inl e ↦
      rw
        (
          e,
          append_assoc (map (line_blocked o.line.description) (blocking_reasons o.decisions))
              (held_reasons rest) more,
        )
        (some_reason o.line.description o.decisions (held_reasons rest ++ more) (h.0 e))
  | inr e ↦ rw e (held_reasons_iff rest more h.1)
]

can_submit-eq :
    (outcomes : List LineOutcome)
    → All IsExplained outcomes
    → (check_can_submit outcomes).can_submit ≡ (
        all (λ o. not (line_held o.status)) outcomes
        && any (λ o. not (is_excluded o.status)) outcomes)
unfolding check_can_submit
can_submit-eq outcomes h = elim (Bool-cases (any (λ o. not (is_excluded o.status)) outcomes)) [
  | inl e ↦ rw e (held_reasons_iff outcomes [] h)
  | inr e ↦ rw e (held_reasons_iff outcomes (no_reimbursable_lines ∷ []) h)
]

no_reasons :
    (outcomes : List LineOutcome)
    → ((check_can_submit outcomes).can_submit ≡ true)
      ↔ ((check_can_submit outcomes).blocking_reasons ≡ [])
unfolding check_can_submit
no_reasons outcomes = ground arith

-- An evaluated claim can be submitted exactly when no line is held and some line still takes part
-- in the money, and exactly then no reason is given against it.
pub evaluate_lines-can_submit :
    (lines : List LineUnderReview) (context : EvaluationContext) (presets : Dict ClaimLineStatus)
    → let outcomes = evaluate_lines lines context presets in
      let check = check_can_submit outcomes in
      (check.can_submit ≡ (
        all (λ o. not (line_held o.status)) outcomes
        && any (λ o. not (is_excluded o.status)) outcomes))
      × ((check.can_submit ≡ true) ↔ (check.blocking_reasons ≡ []))
evaluate_lines-can_submit lines context presets =
    let outcomes = evaluate_lines lines context presets in
    (
      can_submit-eq outcomes (
          evaluate_lines-All IsExplained lines presets
            (λ i l c at. visit-IsExplained (lookup i presets) l c) context),
      no_reasons outcomes,
    )
