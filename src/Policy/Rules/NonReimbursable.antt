-- ===== src/Policy/Rules/NonReimbursable.antt =====
-- policy/rules/non_reimbursable.py
use expense_reimbursement_ta.Prelude.{Option, none, some, List, [], ◌∷◌, find}
use expense_reimbursement_ta.Prelude.Text.{Text, codes, lower, search_word}
use expense_reimbursement_ta.Models.{Outcome}
use expense_reimbursement_ta.Policy.Params.{limit, elements, texts}
use expense_reimbursement_ta.Policy.Decision.{
  RuleId, Clause, Reason, Decision, LineUnderReview, EvaluationContext, RuleFn, claimable,
}

abbrev categories_path : List Text
categories_path = codes "non_reimbursable" ∷ codes "categories" ∷ []

unfoldable pub categories : EvaluationContext → List Text
categories context = texts (elements (limit context.params categories_path))

-- The first category whose words stand in the description: the `for` loop with its early return.
unfoldable pub matching_category : Text → List Text → Option Text
matching_category description = find (λ category. search_word (lower category) (lower description))

disallow : Option Text → LineUnderReview → List Decision
disallow none line = []
disallow (some category) line =
    record {
      rule_id = RuleId.non_reimbursable_category;
      outcome = Outcome.disallowed;
      reason = Reason.not_reimbursable line.description category line.gross_amount line.tax_share;
      citation = Clause.s4;
      amount_effect = claimable line;
    }
    ∷ []

unfoldable pub non_reimbursable_category : RuleFn
unfolding disallow
non_reimbursable_category line context =
    disallow (matching_category line.description (categories context)) line
