-- ===== src/Claims/Attribution.antt =====
-- claims/attribution.py: whose expense a document shows, and who paid for it. The reasons that only
-- a message quotes are left out: `draft_line` passes on that of a third party alone.
use expense_reimbursement_ta.Prelude.{
  Bool, true, false, not, ◌&&◌, ◌||◌, Option, none, some, List, [], ◌∷◌, map, filter, any,
  if◌then◌else◌, ◌==◌,
}
use expense_reimbursement_ta.Prelude.Text.{
  Text, codes, is_empty, is_lower, lower, split, is_in, is_member,
}
use expense_reimbursement_ta.Models.{PaidBy}
use expense_reimbursement_ta.Policy.Decision.{Reason, incurred_by}

pub data Attribution : Type 0 where
  claimant third_party unknown : Attribution

pub record AttributionResult : Type 0 where
  pub attribution : Attribution
  pub payer_name : Option Text
  pub reason : Option Reason

abbrev titles : List Text
titles = codes "mr" ∷ codes "mrs" ∷ codes "ms" ∷ codes "miss" ∷ codes "dr" ∷ codes "prof" ∷ []

abbrev company_signals : List Text
company_signals =
    codes "corporate card"
    ∷ codes "company card"
    ∷ codes "billed to company"
    ∷ codes "company account"
    ∷ []

-- `_NON_ALPHA.sub(" ", …)`: a run of other characters becomes one space there and several here,
-- which `split` does not tell apart.
abbrev cleaned : Text → Text
cleaned = map (λ c. if is_lower c || (c == 32) then c else 32)

-- `_tokens`: the set as a list.
unfoldable pub tokens : Option Text → List Text
tokens none = []
tokens (some name) = filter (λ part. not (is_member part titles)) (split (cleaned (lower name)))

abbrev no_tokens : List Text → Bool
no_tokens [] = true
no_tokens (_ ∷ _) = false

abbrev name_of : Option Text → Text
name_of none = []
name_of (some name) = name

unfoldable pub attribute : Option Text → Text → AttributionResult
unfolding tokens
attribute payer_name claimant_name =
    let payer_tokens = tokens payer_name in
    let claimant_tokens = tokens (some claimant_name) in
    if no_tokens payer_tokens
    then record { attribution = Attribution.unknown; payer_name = none; reason = none }
    else if any (λ t. is_member t claimant_tokens) payer_tokens
    then record { attribution = Attribution.claimant; payer_name = payer_name; reason = none }
    else record {
      attribution = Attribution.third_party;
      payer_name = payer_name;
      reason = some (incurred_by (name_of payer_name) claimant_name);
    }

-- The last test of the source, for the employee's words, leads to the same answer as the default.
unfoldable pub derive_paid_by : Option Text → Option Text → PaidBy
derive_paid_by none company_name = PaidBy.employee
derive_paid_by (some payment_method) company_name =
    let text = lower payment_method in
    if is_empty payment_method
    then PaidBy.employee
    else if any (λ signal. is_in signal text) company_signals
    then PaidBy.company
    else elim company_name [
      | none ↦ PaidBy.employee
      | some name ↦
          if not (is_empty name) && is_in (lower name) text then PaidBy.company else PaidBy.employee
    ]
