-- ===== src/Approvals/Queue.antt =====
-- approvals/router.py: the approver's queue, and the decision endpoint with its guards. The tables
-- are an argument; a decision returns the claim it leaves, its event, the notifications it writes
-- and the response.
pub mod Guards
pub mod Delivery
pub mod Desk
pub mod Listing
use expense_reimbursement_ta.Prelude.{
  ℕ, Bool, true, false, not, ◌&&◌, ◌||◌, Option, none, some, List, [], ◌∷◌, any, filter, ltb, ◌==◌,
  if◌then◌else◌, head?, is_id, map_some,
}
use expense_reimbursement_ta.Prelude.Result.{Result, ok, err, ◌>>=◌}
use expense_reimbursement_ta.Prelude.Text.{Text, is_empty, strip, text_eq}
use expense_reimbursement_ta.Models.{ClaimStatus, DateTime, Verdict, decision_of, is_pending}
use expense_reimbursement_ta.Claims.Rows.{ApprovalStep, SettlementClaim, said}
use expense_reimbursement_ta.Claims.Serialisers.{pending_in_round, front, pending_step_for}
use expense_reimbursement_ta.Approvals.Service.{
  DecisionError, DecisionEvent, DecisionResult, concurrent_modification, invalid_transition,
  no_pending_step, record_decision,
}
use expense_reimbursement_ta.Http.{
  HttpError, http_error, approver_mismatch, cannot_transition, no_such_claim, not_your_step,
  nothing_pending, remarks_required, stale_claim,
}
use expense_reimbursement_ta.Identity.{Employee, admin_user}
use expense_reimbursement_ta.Notifications.{Notification, notify_decided}
use expense_reimbursement_ta.Tables.{Tables, TravelRequest, employee_of, load_claim, trip_of}

pub data Scope : Type 0 where
  pending acted : Scope

-- The step was decided, and by the person with the id.
unfoldable pub acted_on : ℕ → ApprovalStep → Bool
acted_on user step = is_id step.approver_employee_id user && not (is_pending step.decision)

-- The key (submission_round, sequence) of the one is less than that of the other.
abbrev is_earlier : ApprovalStep → ApprovalStep → Bool
is_earlier a b =
    ltb a.submission_round b.submission_round
    || ((a.submission_round == b.submission_round) && ltb a.sequence b.sequence)

-- `max(..., key=...)`: the first of the steps with the greatest key.
unfoldable pub latest : ApprovalStep → List ApprovalStep → ApprovalStep
latest s [] = s
latest s (t ∷ rest) = latest (if is_earlier s t then t else s) rest

unfoldable pub latest_of : List ApprovalStep → Option ApprovalStep
unfolding latest
latest_of [] = none
latest_of (s ∷ rest) = some (latest s rest)

unfoldable pub my_step : SettlementClaim → ℕ → Scope → Option ApprovalStep
unfolding pending_step_for acted_on latest_of
my_step claim user Scope.pending = pending_step_for claim user
my_step claim user Scope.acted = latest_of (filter (acted_on user) claim.approval_steps)

-- Whether the claim was ever routed to the person with the id.
unfoldable pub is_routed_to : ℕ → SettlementClaim → Bool
is_routed_to user claim = any (λ step. is_id step.approver_employee_id user) claim.approval_steps

-- The rows of a claim, its trip and its claimant.
pub record RoutedClaim : Type 0 where
  pub request : TravelRequest
  pub claim : SettlementClaim
  pub claimant : Employee

-- The join of the three tables on a trip's id.
unfoldable pub joined : Tables → Text → Option RoutedClaim
unfolding trip_of load_claim employee_of
joined tables trq_id = elim (trip_of tables trq_id) [
  | none ↦ none
  | some request ↦ elim (load_claim tables request.id) [
    | none ↦ none
    | some claim ↦ elim (employee_of tables request.employee_id) [
      | none ↦ none
      | some claimant ↦ some (record { request = request; claim = claim; claimant = claimant })
    ]
  ]
]

unfoldable pub admitted : Employee → Option RoutedClaim → Result HttpError RoutedClaim
unfolding is_routed_to
admitted user none = err (http_error 404 no_such_claim)
admitted user (some row) =
    if not (is_routed_to user.id row.claim) then err (http_error 404 no_such_claim) else ok row

unfoldable pub require_routed_claim : Tables → Text → Employee → Result HttpError RoutedClaim
unfolding joined admitted
require_routed_claim tables trq_id user = admitted user (joined tables trq_id)

pub record RecordDecisionRequest : Type 0 where
  pub decision : Verdict
  pub approver_code : Text
  pub expected_version : ℕ
  pub remarks : Option Text

pub record RecordDecisionResponse : Type 0 where
  pub trq_id : Text
  pub claim_status : ClaimStatus
  pub step_sequence : ℕ
  pub new_version : ℕ

-- What a decision leaves behind.
pub record Decided : Type 0 where
  pub claim : SettlementClaim
  pub event : DecisionEvent
  pub notifications : List Notification
  pub response : RecordDecisionResponse

-- `(payload.remarks or "").strip()` is empty.
unfoldable pub is_blank : Option Text → Bool
is_blank none = true
is_blank (some text) = is_empty (strip text)

abbrev pub is_return : Verdict → Bool
is_return Verdict.returned = true
is_return _ = false

unfoldable pub refusal : DecisionError → HttpError
refusal (concurrent_modification version expected) = http_error 409 (stale_claim version expected)
refusal no_pending_step = http_error 409 nothing_pending
refusal (invalid_transition e) = http_error 409 (cannot_transition e)

unfoldable pub answered : {A : Type 0} → Result DecisionError A → Result HttpError A
unfolding refusal
answered (ok done) = ok done
answered (err e) = err (refusal e)

-- The pending steps of the claim's round behind the number.
unfoldable pub steps_behind : SettlementClaim → ℕ → List ApprovalStep
steps_behind claim sequence = filter (λ step. ltb sequence step.sequence) (pending_in_round claim)

-- The guards on the step at the front, and the remarks that a return needs.
unfoldable pub require_step :
    RecordDecisionRequest → Employee → Option ApprovalStep → Result HttpError ApprovalStep
unfolding is_blank
require_step payload user none = err (http_error 409 nothing_pending)
require_step payload user (some step) =
    if not (is_id step.approver_employee_id user.id)
    then err (http_error 403 (not_your_step step.role step.sequence))
    else if is_return payload.decision && is_blank payload.remarks
    then err (http_error 422 remarks_required)
    else ok step

unfoldable pub require_self : RecordDecisionRequest → Employee → Result HttpError (Unit {0})
require_self payload user =
    if not (text_eq payload.approver_code user.emp_code)
    then err (http_error 403 approver_mismatch)
    else ok tt

-- What follows a recorded decision: the notifications and the response.
unfoldable pub concluded :
    Tables
    → RoutedClaim
    → Employee
    → RecordDecisionRequest
    → SettlementClaim
    → DecisionEvent
    → DecisionResult
    → Decided
unfolding steps_behind
concluded tables row user payload after event result = record {
  claim = after;
  event = event;
  notifications =
      notify_decided tables.employees after row.request.trq_id row.claimant user payload.decision
        payload.remarks (head? (steps_behind after result.step_sequence));
  response = record {
    trq_id = row.request.trq_id;
    claim_status = result.claim_status;
    step_sequence = result.step_sequence;
    new_version = result.new_version;
  };
}

unfoldable pub decide :
    (now : DateTime) (tables : Tables) (x_emp_code : Option Text) (trq_id : Text)
    (payload : RecordDecisionRequest)
    → Result HttpError Decided
unfolding admin_user require_self require_routed_claim require_step answered concluded
decide now tables x_emp_code trq_id payload = do
  user ← admin_user tables.employees x_emp_code
  same ← require_self payload user
  row ← require_routed_claim tables trq_id user
  step ← require_step payload user (front row.claim)
  (after, event, result) ← answered (
      record_decision now row.claim payload.expected_version (decision_of payload.decision)
        (some user.id) (map_some said payload.remarks))
  ok (concluded tables row user payload after event result)
