-- ===== src/Policy/Rules/Lodging.antt =====
-- policy/rules/lodging.py
use expense_reimbursement_ta.Prelude.{
  ℕ, zero, suc, Option, none, some, List, [], ◌∷◌, if◌then◌else◌,
}
use expense_reimbursement_ta.Prelude.Int.{ℤ, pos, ◌-ℤ◌, ◌*ℤ◌, leb_ℤ}
use expense_reimbursement_ta.Prelude.Text.{Text, codes}
use expense_reimbursement_ta.Models.{ExpenseHead, Outcome}
use expense_reimbursement_ta.Policy.Params.{limit, get_field, amount_of}
use expense_reimbursement_ta.Policy.Decimal.{per_unit}
use expense_reimbursement_ta.Policy.Decision.{
  RuleId, Clause, Reason, Decision, LineUnderReview, EvaluationContext, RuleFn,
}

abbrev limits_path : List Text
limits_path = codes "lodging" ∷ codes "limits_per_night" ∷ []

-- `(context.limit("lodging", "limits_per_night") or {}).get(context.city_class)`
unfoldable pub tariff_limit : EvaluationContext → Option ℤ
tariff_limit context = amount_of (get_field (limit context.params limits_path) context.city_class)

-- `line.nights or 1`
unfoldable pub nights_of : Option ℕ → ℕ
nights_of none = 1
nights_of (some zero) = 1
nights_of (some (suc n)) = suc n

abbrev decide : Outcome → ℤ → Reason → List Decision
decide o effect r =
    record {
      rule_id = RuleId.lodging_tariff_limit;
      outcome = o;
      reason = r;
      citation = Clause.s3_1;
      amount_effect = effect;
    }
    ∷ []

against_limit : Option ℤ → LineUnderReview → EvaluationContext → List Decision
unfolding nights_of
against_limit none line context =
    decide Outcome.warning (pos 0) (Reason.no_lodging_limit context.city_class)
against_limit (some limit_amount) line context =
    let nights = nights_of line.nights in
    let per_night = per_unit line.gross_amount nights in
    let excess = (per_night -ℤ limit_amount) *ℤ pos nights in
    if leb_ℤ per_night limit_amount
    then decide Outcome.allowed (pos 0)
        (Reason.within_tariff per_night nights context.city_class limit_amount)
    else decide Outcome.disallowed excess
        (Reason.over_tariff per_night context.city_class limit_amount nights excess)

tariff_for : ExpenseHead → LineUnderReview → EvaluationContext → List Decision
tariff_for ExpenseHead.lodging line context = against_limit (tariff_limit context) line context
tariff_for _ line context = []

unfoldable pub lodging_tariff_limit : RuleFn
unfolding tariff_for against_limit
lodging_tariff_limit line context = tariff_for line.head line context
