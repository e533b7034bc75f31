-- ===== src/Policy/Rules/Meals.antt =====
-- policy/rules/meals.py
use expense_reimbursement_ta.Prelude.{
  Bool, true, false, Option, none, some, List, [], ◌∷◌, if◌then◌else◌, or_else,
}
use expense_reimbursement_ta.Prelude.Int.{ℤ, pos, ◌+ℤ◌, ◌-ℤ◌, leb_ℤ}
use expense_reimbursement_ta.Prelude.Text.{Text, codes}
use expense_reimbursement_ta.Prelude.Dict.{Dict, lookup}
use expense_reimbursement_ta.Models.{Date, ExpenseHead, Outcome}
use expense_reimbursement_ta.Policy.Params.{limit, get_field, amount_of}
use expense_reimbursement_ta.Policy.Decision.{
  RuleId, Clause, Reason, Decision, LineUnderReview, EvaluationContext, RuleFn, claimable,
}

abbrev limits_path : List Text
limits_path = codes "meals" ∷ codes "daily_limits" ∷ []

unfoldable pub daily_cap : EvaluationContext → Option ℤ
daily_cap context = amount_of (get_field (limit context.params limits_path) context.city_class)

-- `context.meals_claimed_by_date.get(day, _ZERO)`
abbrev pub claimed_on : Date → Dict ℤ → ℤ
claimed_on day claimed = or_else (lookup day claimed) (pos 0)

cap_for_day : ℤ → ℤ → ℤ → Date → EvaluationContext → List Decision
cap_for_day cap already amount day context =
    let total = already +ℤ amount in
    let excess = total -ℤ cap in
    if leb_ℤ total cap
    then record {
      rule_id = RuleId.meals_daily_cap;
      outcome = Outcome.allowed;
      reason = Reason.within_meal_cap amount day context.city_class cap already;
      citation = Clause.s3_3;
      amount_effect = pos 0;
    }
      ∷ []
    else record {
      rule_id = RuleId.meals_daily_cap;
      outcome = Outcome.disallowed;
      reason = Reason.over_meal_cap day total context.city_class cap excess;
      citation = Clause.s3_3;
      amount_effect = excess;
    }
      ∷ []

cap_when : Option ℤ → Option Date → LineUnderReview → EvaluationContext → List Decision
cap_when none day line context = []
cap_when (some cap) none line context = []
cap_when (some cap) (some day) line context =
    cap_for_day cap (claimed_on day context.meals_claimed_by_date) (claimable line) day context

cap_for_head : ExpenseHead → LineUnderReview → EvaluationContext → List Decision
cap_for_head ExpenseHead.meals line context =
    cap_when (daily_cap context) line.line_date line context
cap_for_head _ line context = []

unfoldable pub meals_daily_cap : RuleFn
unfolding cap_for_head cap_when cap_for_day
meals_daily_cap line context = cap_for_head line.head line context

abbrev threshold_path : List Text
threshold_path = codes "meals" ∷ codes "bill_required_above" ∷ []

-- `if line.proof_ref`
abbrev pub has_proof : Option Text → Bool
has_proof none = false
has_proof (some []) = false
has_proof (some (c ∷ t)) = true

bill_at : Option ℤ → LineUnderReview → List Decision
bill_at none line = []
bill_at (some threshold) line =
    if leb_ℤ (claimable line) threshold
    then []
    else if has_proof line.proof_ref
    then []
    else record {
      rule_id = RuleId.meals_bill_threshold;
      outcome = Outcome.held;
      reason = Reason.meal_bill_missing threshold;
      citation = Clause.s3_3;
      amount_effect = pos 0;
    }
      ∷ []

bill_for_head : ExpenseHead → LineUnderReview → EvaluationContext → List Decision
bill_for_head ExpenseHead.meals line context =
    bill_at (amount_of (limit context.params threshold_path)) line
bill_for_head _ line context = []

unfoldable pub meals_bill_threshold : RuleFn
unfolding bill_for_head bill_at
meals_bill_threshold line context = bill_for_head line.head line context
