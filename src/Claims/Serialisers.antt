-- ===== src/Claims/Serialisers.antt =====
-- claims/serialisers.py: the chain that a claim is judged on at present, and what the routers read
-- off it (`_pending_steps` and `_pending_step_for` of claims/router.py).
pub mod Front
use expense_reimbursement_ta.Prelude.{
  ℕ, ◌+◌, Bool, not, ◌&&◌, Option, none, some, List, filter, ◌==◌, if◌then◌else◌, head?, is_id,
}
use expense_reimbursement_ta.Prelude.Sort.{sorted}
use expense_reimbursement_ta.Models.{is_pending}
use expense_reimbursement_ta.Claims.Rows.{ApprovalStep, SettlementClaim}

-- `not step.superseded and step.submission_round == claim.return_count + 1`
unfoldable pub in_round : ℕ → ApprovalStep → Bool
in_round round step = not step.superseded && step.submission_round == round

unfoldable pub current_round_steps : SettlementClaim → List ApprovalStep
unfolding sorted in_round
current_round_steps claim =
    sorted (λ step. step.sequence) (filter (in_round (claim.return_count + 1)) claim.approval_steps)

-- `_pending_steps`
unfoldable pub pending_in_round : SettlementClaim → List ApprovalStep
unfolding current_round_steps
pending_in_round claim = filter (λ step. is_pending step.decision) (current_round_steps claim)

-- `pending[0]`, if there is one.
unfoldable pub front : SettlementClaim → Option ApprovalStep
unfolding pending_in_round
front claim = head? (pending_in_round claim)

abbrev pub addressed_to : ℕ → Option ApprovalStep → Option ApprovalStep
addressed_to user none = none
addressed_to user (some step) = if is_id step.approver_employee_id user then some step else none

-- `_pending_step_for`: the step that the person with the id is asked to decide.
unfoldable pub pending_step_for : SettlementClaim → ℕ → Option ApprovalStep
unfolding front
pending_step_for claim user = addressed_to user (front claim)
