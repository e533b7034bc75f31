-- ===== src/Policy/Rules/Proof.antt =====
-- policy/rules/proof.py
use expense_reimbursement_ta.Prelude.{[], ◌∷◌, if◌then◌else◌}
use expense_reimbursement_ta.Prelude.Int.{pos}
use expense_reimbursement_ta.Models.{Outcome, paid_by_company}
use expense_reimbursement_ta.Policy.Decision.{RuleId, Clause, Reason, RuleFn}
use expense_reimbursement_ta.Policy.Rules.Meals.{has_proof}

unfoldable pub proof_required : RuleFn
proof_required line context =
    if paid_by_company line.paid_by
    then []
    else if has_proof line.proof_ref
    then []
    else record {
      rule_id = RuleId.proof_required;
      outcome = Outcome.held;
      reason = Reason.proof_missing;
      citation = Clause.s5_2;
      amount_effect = pos 0;
    }
      ∷ []
