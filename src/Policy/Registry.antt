-- ===== src/Policy/Registry.antt =====
-- The registry of policy/registry.py: registration in the order in which policy/rules/__init__.py
-- imports the modules, under a stable id, an id at most once.
use expense_reimbursement_ta.Prelude.{ℕ, Bool, List, [], ◌∷◌, ◌++◌, ◌==◌, if◌then◌else◌, any}
use expense_reimbursement_ta.Prelude.Result.{Result, ok, err, ◌>>=◌}
use expense_reimbursement_ta.Policy.Decision.{
  RuleId, Clause, RuleFn, Decision, LineUnderReview, EvaluationContext,
}
use expense_reimbursement_ta.Policy.Rules.Conveyance.{conveyance_actuals}
use expense_reimbursement_ta.Policy.Rules.Entertainment.{
  entertainment_attendees, entertainment_prior_approval,
}
use expense_reimbursement_ta.Policy.Rules.Lodging.{lodging_tariff_limit}
use expense_reimbursement_ta.Policy.Rules.Meals.{meals_daily_cap, meals_bill_threshold}
use expense_reimbursement_ta.Policy.Rules.NonReimbursable.{non_reimbursable_category}
use expense_reimbursement_ta.Policy.Rules.Proof.{proof_required}

abbrev rank : RuleId → ℕ
rank RuleId.conveyance_actuals = 0
rank RuleId.entertainment_attendees = 1
rank RuleId.entertainment_prior_approval = 2
rank RuleId.lodging_tariff_limit = 3
rank RuleId.meals_daily_cap = 4
rank RuleId.meals_bill_threshold = 5
rank RuleId.non_reimbursable_category = 6
rank RuleId.proof_required = 7
rank RuleId.third_party_claimant = 8
rank RuleId.air_company_borne = 9
rank RuleId.line_withdrawn = 10

abbrev pub same_rule : RuleId → RuleId → Bool
same_rule a b = rank a == rank b

pub record Registered : Type 0 where
  pub rule_id : RuleId
  pub citation : Clause
  pub fn : RuleFn

pub data RegistryError : Type 0 where
  already_registered : RuleId → RegistryError

abbrev pub Registry : Type 0
Registry = List Registered

-- The decorator `rule`.
unfoldable pub register : RuleId → Clause → RuleFn → Registry → Result RegistryError Registry
register id clause fn registry =
    if any (λ r. same_rule r.rule_id id) registry
    then err (RegistryError.already_registered id)
    else ok (registry ++ record { rule_id = id; citation = clause; fn = fn } ∷ [])

-- What importing the package does.
unfoldable pub import_rules : Result RegistryError Registry
unfolding register
import_rules = do
  r ← register RuleId.conveyance_actuals Clause.s3_4 conveyance_actuals []
  r ← register RuleId.entertainment_attendees Clause.s3_5 entertainment_attendees r
  r ← register RuleId.entertainment_prior_approval Clause.s3_5 entertainment_prior_approval r
  r ← register RuleId.lodging_tariff_limit Clause.s3_1 lodging_tariff_limit r
  r ← register RuleId.meals_daily_cap Clause.s3_3 meals_daily_cap r
  r ← register RuleId.meals_bill_threshold Clause.s3_3 meals_bill_threshold r
  r ← register RuleId.non_reimbursable_category Clause.s4 non_reimbursable_category r
  register RuleId.proof_required Clause.s5_2 proof_required r

registry_of : Result RegistryError Registry → Registry
registry_of (ok r) = r
registry_of (err _) = []

unfoldable pub registered_rules : Registry
unfolding import_rules registry_of
registered_rules = registry_of import_rules

-- `for _rule_id, _citation, fn in registered_rules(): decisions.extend(fn(line, context))`
unfoldable pub apply_rules : Registry → LineUnderReview → EvaluationContext → List Decision
apply_rules [] line context = []
apply_rules (r ∷ rs) line context = r.fn line context ++ apply_rules rs line context
