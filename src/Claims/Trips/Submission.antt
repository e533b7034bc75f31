-- ===== src/Claims/Trips/Submission.antt =====
-- claims/router.py: withdrawing a line, and submitting a claim. The draft that `build_claim` makes of
-- the trip is an argument.
pub mod Handed
use expense_reimbursement_ta.Prelude.{ℕ, Option, none, some, List}
use expense_reimbursement_ta.Prelude.Int.{ℤ}
use expense_reimbursement_ta.Prelude.Result.{Result, ok, err, ◌>>=◌}
use expense_reimbursement_ta.Prelude.Text.{Text}
use expense_reimbursement_ta.Models.{ClaimStatus, DateTime, Role}
use expense_reimbursement_ta.Claims.Materialise.{
  ClaimDraft, EmployeeIds, SubmitError, already_submitted, not_submittable, submit,
  submit_transition,
}
use expense_reimbursement_ta.Claims.Rows.{ApprovalStep, SettlementClaim}
use expense_reimbursement_ta.Claims.Serialisers.{current_round_steps, front}
use expense_reimbursement_ta.Claims.Trips.{payable_of, require_own_draft}
use expense_reimbursement_ta.Claims.Withdrawals.{Withdrawn, record_withdrawal}
use expense_reimbursement_ta.Http.{
  HttpError, http_error, claim_already, claim_incomplete, internal_server_error,
}
use expense_reimbursement_ta.Identity.{Employee}
use expense_reimbursement_ta.Notifications.{Notification, named_approver, notify_submitted}
use expense_reimbursement_ta.Tables.{Tables, TravelRequest, load_claim}

-- The `ClaimEvent` of a withdrawn line.
pub record LineWithdrawn : Type 0 where
  pub travel_request_id : ℕ
  pub actor_employee_id : ℕ
  pub description : Text
  pub reason : Text

unfoldable pub withdraw_line :
    (tables : Tables) (withdrawn : Withdrawn) (trq_id description reason : Text) (user : Employee)
    → Result HttpError (Withdrawn × LineWithdrawn)
unfolding require_own_draft record_withdrawal
withdraw_line tables withdrawn trq_id description reason user = do
  request ← require_own_draft tables trq_id user
  let event : LineWithdrawn = record {
    travel_request_id = request.id;
    actor_employee_id = user.id;
    description = description;
    reason = reason;
  }
  ok (record_withdrawal trq_id description withdrawn, event)

unfoldable pub submit_refusal : SubmitError → HttpError
submit_refusal (not_submittable reasons) = http_error 422 (claim_incomplete reasons)
submit_refusal (already_submitted status) = http_error 422 (claim_already status)
submit_refusal (submit_transition e) = http_error 500 internal_server_error

unfoldable pub submit_answered :
    Result SubmitError SettlementClaim → Result HttpError SettlementClaim
unfolding submit_refusal
submit_answered (ok claim) = ok claim
submit_answered (err e) = err (submit_refusal e)

abbrev first_name : Option (Text × Role) → Option Text
first_name none = none
first_name (some (name, role)) = some name

pub record SubmitClaimResponse : Type 0 where
  pub trq_id : Text
  pub status : ClaimStatus
  pub version : ℕ
  pub payable : ℤ
  pub next_approver : Option Text
  pub chain : List ApprovalStep

-- What a submission leaves behind.
pub record Submitted : Type 0 where
  pub claim : SettlementClaim
  pub notifications : List Notification
  pub response : SubmitClaimResponse

unfoldable pub handed_in :
    Tables → TravelRequest → Employee → ClaimDraft → SettlementClaim → Submitted
unfolding front notify_submitted named_approver current_round_steps
handed_in tables request user draft routed = record {
  claim = routed;
  notifications =
      notify_submitted tables.employees routed request.trq_id user (front routed)
        draft.summary.payable;
  response = record {
    trq_id = request.trq_id;
    status = routed.status;
    version = routed.version;
    payable = payable_of routed;
    next_approver = first_name (named_approver tables.employees (front routed));
    chain = current_round_steps routed;
  };
}

unfoldable pub submit_claim :
    (now : DateTime) (tables : Tables) (ids : EmployeeIds) (fresh : ℕ)
    (draft_for : TravelRequest → ClaimDraft) (trq_id : Text) (user : Employee)
    → Result HttpError Submitted
unfolding require_own_draft load_claim submit submit_answered handed_in
submit_claim now tables ids fresh draft_for trq_id user = do
  request ← require_own_draft tables trq_id user
  let draft = draft_for request
  routed ← submit_answered (submit now ids fresh draft (load_claim tables request.id))
  ok (handed_in tables request user draft routed)
