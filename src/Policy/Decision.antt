-- ===== src/Policy/Decision.antt =====
-- The data of policy/registry.py: decisions, the line that a rule sees, and its context. A reason
-- is the text's template with the values that it is filled with.
use expense_reimbursement_ta.Prelude.{ℕ, Bool, Option, List, [], ◌∷◌, if◌then◌else◌}
use expense_reimbursement_ta.Prelude.Int.{ℤ, pos, ◌+ℤ◌}
use expense_reimbursement_ta.Prelude.Text.{Text}
use expense_reimbursement_ta.Prelude.Dict.{Dict}
use expense_reimbursement_ta.Models.{Date, ExpenseHead, PaidBy, Outcome, is_disallowed}
use expense_reimbursement_ta.Policy.Params.{Node}

pub data RuleId : Type 0 where
  conveyance_actuals entertainment_attendees entertainment_prior_approval : RuleId
  lodging_tariff_limit meals_daily_cap meals_bill_threshold : RuleId
  non_reimbursable_category proof_required : RuleId
  third_party_claimant air_company_borne line_withdrawn : RuleId

-- The citation, §3.1 and so on.
pub data Clause : Type 0 where
  s3_1 s3_2 s3_3 s3_4 s3_5 s4 s5_2 : Clause

pub data Reason : Type 0 where
  conveyance_on_actuals : Reason
  attendees_recorded : (names : List Text) → Reason
  attendees_missing : Reason
  prior_approval_on_file : (role : Text) → Reason
  prior_approval_missing : (claimable threshold : ℤ) (role : Text) → Reason
  no_lodging_limit : (city_class : Text) → Reason
  within_tariff : (per_night : ℤ) (nights : ℕ) (city_class : Text) (limit : ℤ) → Reason
  over_tariff : (per_night : ℤ) (city_class : Text) (limit : ℤ) (nights : ℕ) (excess : ℤ) → Reason
  within_meal_cap : (claimable : ℤ) (day : Date) (city_class : Text) (cap already : ℤ) → Reason
  over_meal_cap : (day : Date) (total : ℤ) (city_class : Text) (cap excess : ℤ) → Reason
  meal_bill_missing : (threshold : ℤ) → Reason
  not_reimbursable : (description category : Text) (gross tax : ℤ) → Reason
  proof_missing : Reason
  incurred_by_another : Reason
  incurred_by : (payer claimant : Text) → Reason
  paid_by_corporate_card : Reason
  booked_centrally : Reason
  withdrawn_by_employee : Reason

pub record Decision : Type 0 where
  pub rule_id : RuleId
  pub outcome : Outcome
  pub reason : Reason
  pub citation : Clause
  pub amount_effect : ℤ

pub record LineUnderReview : Type 0 where
  pub head : ExpenseHead
  pub description : Text
  pub gross_amount : ℤ
  pub paid_by : PaidBy
  pub line_date : Option Date
  pub tax_share : ℤ
  pub nights : Option ℕ
  pub proof_ref : Option Text
  pub preset_reason : Option Reason

unfoldable pub claimable : LineUnderReview → ℤ
claimable line = line.gross_amount +ℤ line.tax_share

pub record EvaluationContext : Type 0 where
  pub params : Node
  pub city_class : Text
  pub trip_from : Date
  pub trip_to : Date
  pub claimant_name : Text
  pub entertainment_attendees : List Text
  pub entertainment_prior_approval : Bool
  pub meals_claimed_by_date : Dict ℤ

abbrev pub RuleFn : Type 0
RuleFn = LineUnderReview → EvaluationContext → List Decision

-- What a decision removes from its line.
unfoldable pub removed : Decision → ℤ
removed d = if is_disallowed d.outcome then d.amount_effect else pos 0

-- The sum that the engine takes over a line's decisions.
unfoldable pub effects : List Decision → ℤ
unfolding removed
effects [] = pos 0
effects (d ∷ ds) = removed d +ℤ effects ds
