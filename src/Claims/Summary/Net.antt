-- ===== src/Claims/Summary/Net.antt =====
-- The net amount of an evaluated claim: policy/engine.py and claims/summary.py together.
use expense_reimbursement_ta.Prelude.{
  ℕ, ◌≡◌, refl, ◌∙◌, inl, inr, Bool, true, false, Option, none, some, List, arith, get_elem?, All,
}
use expense_reimbursement_ta.Prelude.Int.{ℤ, pos, ◌≤ℤ◌, ◌-ℤ◌}
use expense_reimbursement_ta.Prelude.Dict.{Dict, lookup}
use expense_reimbursement_ta.Prelude.Result.{ok}
use expense_reimbursement_ta.Models.{ClaimLineStatus, paid_by_company}
use expense_reimbursement_ta.Policy.Decision.{LineUnderReview, EvaluationContext}
use expense_reimbursement_ta.Policy.Engine.{
  visit, evaluate_one, evaluate_lines, line_status, rejected_outcome, memo_outcome,
  withdrawn_outcome,
}
use expense_reimbursement_ta.Policy.Engine.Amounts.{evaluate_one-IsSplit}
use expense_reimbursement_ta.Policy.Engine.Each.{evaluate_lines-All}
use expense_reimbursement_ta.Claims.Summary.{
  SettlementSummary, is_excluded, summarise, employee_gross, disallowed_sum,
}
use expense_reimbursement_ta.Claims.Summary.Settlement.{IsCounted, allowed_sum, net-eq-allowed}

-- A preset that takes a line out of the money.
abbrev pub sets_aside : Option ClaimLineStatus → Bool
sets_aside none = false
sets_aside (some s) = is_excluded s

-- No line that the company paid is left to the rules.
abbrev pub CompanySetAside : List LineUnderReview → Dict ClaimLineStatus → Type 0
CompanySetAside lines presets =
    (i : ℕ) (l : LineUnderReview)
    → get_elem? lines i ≡ some l
    → paid_by_company l.paid_by ≡ true
    → sets_aside (lookup i presets) ≡ true

evaluated-IsCounted :
    (line : LineUnderReview) (context : EvaluationContext)
    → paid_by_company line.paid_by ≡ false
    → IsCounted (evaluate_one line context)
unfolding evaluate_one line_status
evaluated-IsCounted line context h =
    let split = evaluate_one-IsSplit line context in
    inr (ground arith, ground arith, split.1, split.2)

visit-IsCounted :
    (preset : Option ClaimLineStatus) (line : LineUnderReview) (context : EvaluationContext)
    → (paid_by_company line.paid_by ≡ true → sets_aside preset ≡ true)
    → IsCounted (visit preset line context).0
unfolding visit rejected_outcome memo_outcome withdrawn_outcome
visit-IsCounted (some ClaimLineStatus.rejected) line context h = inl (refl, refl)
visit-IsCounted (some ClaimLineStatus.memo) line context h = inl (refl, refl)
visit-IsCounted (some ClaimLineStatus.withdrawn) line context h = inl (refl, refl)
visit-IsCounted _ line context h = evaluated-IsCounted line context (ground arith)

pub evaluate_lines-IsCounted :
    (lines : List LineUnderReview) (presets : Dict ClaimLineStatus) (context : EvaluationContext)
    → CompanySetAside lines presets
    → All IsCounted (evaluate_lines lines context presets)
evaluate_lines-IsCounted lines presets context h =
    evaluate_lines-All IsCounted lines presets
      (λ i l c at. visit-IsCounted (lookup i presets) l c (h i l at)) context

-- Where every company-paid line is set aside, the net amount of an evaluated claim is the sum of
-- what its lines are allowed, and it is not negative.
pub net-eq-allowed_lines :
    (lines : List LineUnderReview) (presets : Dict ClaimLineStatus) (context : EvaluationContext)
    (advance : ℤ) (s : SettlementSummary)
    → CompanySetAside lines presets
    → summarise (evaluate_lines lines context presets) advance ≡ ok s
    → (s.net_reimbursable ≡ allowed_sum (evaluate_lines lines context presets))
      × (pos 0 ≤ℤ s.net_reimbursable)
unfolding summarise
net-eq-allowed_lines lines presets context advance s h e =
    let outcomes = evaluate_lines lines context presets in
    let (same, nonneg) =
      net-eq-allowed outcomes (evaluate_lines-IsCounted lines presets context h) in
    let net : s.net_reimbursable ≡ employee_gross outcomes -ℤ disallowed_sum outcomes =
      ground arith in
    (net ∙ same, rw (net ∙ same) nonneg)
