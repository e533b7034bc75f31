-- ===== src/Policy/Rules/Conveyance.antt =====
-- policy/rules/conveyance.py
use expense_reimbursement_ta.Prelude.{List, [], ◌∷◌}
use expense_reimbursement_ta.Prelude.Int.{pos}
use expense_reimbursement_ta.Models.{ExpenseHead, Outcome}
use expense_reimbursement_ta.Policy.Decision.{RuleId, Clause, Reason, Decision, RuleFn}

for_head : ExpenseHead → List Decision
for_head ExpenseHead.transport =
    record {
      rule_id = RuleId.conveyance_actuals;
      outcome = Outcome.allowed;
      reason = Reason.conveyance_on_actuals;
      citation = Clause.s3_4;
      amount_effect = pos 0;
    }
    ∷ []
for_head _ = []

unfoldable pub conveyance_actuals : RuleFn
unfolding for_head
conveyance_actuals line context = for_head line.head
