-- ===== src/Claims/Materialise.antt =====
-- claims/materialise.py: a draft frozen into the rows of a claim. The claim that is stored for the
-- trip, the ids of the employee table and `now` are arguments, and the claim that a call leaves is
-- its result.
pub mod Rounds
use expense_reimbursement_ta.Prelude.{
  ℕ, ◌+◌, false, not, Option, none, some, List, [], ◌∷◌, ◌++◌, map, if◌then◌else◌, is_none,
}
use expense_reimbursement_ta.Prelude.Text.{Text, text_eq}
use expense_reimbursement_ta.Prelude.Result.{Result, ok, err, ◌>>=◌}
use expense_reimbursement_ta.Models.{DateTime, ApprovalDecision, ClaimStatus, claim_draft}
use expense_reimbursement_ta.Policy.Decision.{claimable}
use expense_reimbursement_ta.Policy.Engine.{LineOutcome}
use expense_reimbursement_ta.Claims.Summary.{SettlementSummary}
use expense_reimbursement_ta.Claims.Lifecycle.{
  Blocking, TransitionError, check_can_submit, assert_transition,
}
use expense_reimbursement_ta.Claims.Rows.{ApprovalStep, ClaimLine, SettlementClaim, Remark, noted}
use expense_reimbursement_ta.Approvals.Routing.{ChainStep, EmployeeRef, Note}

-- `ClaimDraft` of claims/pipeline.py, by the fields that a submission reads, and the trip's id.
pub record ClaimDraft : Type 0 where
  pub travel_request_id : ℕ
  pub outcomes : List LineOutcome
  pub summary : SettlementSummary
  pub chain : List ChainStep

pub data SubmitError : Type 0 where
  not_submittable : List Blocking → SubmitError
  already_submitted : ClaimStatus → SubmitError
  submit_transition : TransitionError → SubmitError

-- The rows of the employee table: a code with its id.
abbrev pub EmployeeIds : Type 0
EmployeeIds = List (Text × ℕ)

unfoldable pub employee_id : EmployeeIds → Text → Option ℕ
employee_id [] code = none
employee_id ((k, id) ∷ rows) code = if text_eq k code then some id else employee_id rows code

unfoldable pub approver_id : EmployeeIds → Option EmployeeRef → Option ℕ
unfolding employee_id
approver_id ids none = none
approver_id ids (some person) = employee_id ids person.emp_code

-- One row of `_write_chain`: a level without an approver is closed at once.
unfoldable pub chain_row : DateTime → EmployeeIds → ℕ → ChainStep → ApprovalStep
unfolding approver_id
chain_row now ids round step =
    let skipped = is_none (approver_id ids step.approver) in
    record {
      sequence = step.sequence;
      role = step.role;
      approver_employee_id = approver_id ids step.approver;
      decision = if skipped then ApprovalDecision.approved else ApprovalDecision.pending;
      decided_at = if skipped then some now else none;
      remarks = if skipped then noted_of step.note else none;
      superseded = false;
      submission_round = round;
    }
  where
    noted_of : Option Note → Option Remark
    noted_of none = none
    noted_of (some n) = some (noted n)

unfoldable pub write_chain : DateTime → EmployeeIds → ℕ → List ChainStep → List ApprovalStep
unfolding chain_row
write_chain now ids round = map (chain_row now ids round)

unfoldable pub write_line : LineOutcome → ClaimLine
write_line outcome = record {
  head = outcome.line.head;
  line_date = outcome.line.line_date;
  description = outcome.line.description;
  paid_by = outcome.line.paid_by;
  gross_amount = claimable outcome.line;
  allowed_amount = outcome.allowed_amount;
  disallowed_amount = outcome.disallowed_amount;
  status = outcome.status;
  proof_ref = outcome.line.proof_ref;
  status_reason = outcome.line.preset_reason;
  decisions = outcome.decisions;
}

unfoldable pub new_claim : (id travel_request_id : ℕ) → SettlementClaim
new_claim id travel_request_id = record {
  id = id;
  travel_request_id = travel_request_id;
  status = ClaimStatus.draft;
  version = 1;
  return_count = 0;
  submitted_at = none;
  lines = [];
  summary = none;
  approval_steps = [];
}

-- The claim that a submission writes to: a new one, whose id is `fresh`, or the stored draft.
unfoldable pub open_claim : ℕ → ℕ → Option SettlementClaim → Result SubmitError SettlementClaim
unfolding new_claim
open_claim fresh travel_request_id none = ok (new_claim fresh travel_request_id)
open_claim fresh travel_request_id (some claim) =
    if claim_draft claim.status then ok claim else err (already_submitted claim.status)

unfoldable pub submitted : DateTime → EmployeeIds → ClaimDraft → SettlementClaim → SettlementClaim
unfolding write_line write_chain
submitted now ids draft claim = record {
  id = claim.id;
  travel_request_id = claim.travel_request_id;
  status = ClaimStatus.pending_approval;
  version = claim.version + 1;
  return_count = claim.return_count;
  submitted_at = some now;
  lines = map write_line draft.outcomes;
  summary = some draft.summary;
  approval_steps = claim.approval_steps ++ write_chain now ids (claim.return_count + 1) draft.chain;
}

unfoldable allowed_to : ClaimStatus → ClaimStatus → Result SubmitError (Unit {0})
allowed_to current target = elim (assert_transition current target) [
  | ok _ ↦ ok tt
  | err e ↦ err (submit_transition e)
]

unfoldable pub submit :
    (now : DateTime) (ids : EmployeeIds) (fresh : ℕ) (draft : ClaimDraft)
    (stored : Option SettlementClaim)
    → Result SubmitError SettlementClaim
unfolding open_claim allowed_to submitted
submit now ids fresh draft stored =
    let check = check_can_submit draft.outcomes in
    if not check.can_submit then err (not_submittable check.blocking_reasons) else do
      claim ← open_claim fresh draft.travel_request_id stored
      passed ← allowed_to claim.status ClaimStatus.pending_approval
      ok (submitted now ids draft claim)
