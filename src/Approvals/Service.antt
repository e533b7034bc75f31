-- ===== src/Approvals/Service.antt =====
-- approvals/service.py: recording a decision against a claim. The claim that a call leaves behind
-- and the event that it adds are parts of its result, and `now` is the time it is called at.
pub mod Decisions
pub mod Outcomes
pub mod Rounds
pub mod Invariant
pub mod History
pub mod Queue
pub mod Refinement
pub mod Progress
use expense_reimbursement_ta.Prelude.{
  ℕ, suc, ◌+◌, Bool, true, false, not, ◌&&◌, Option, none, some, List, [], ◌∷◌, map, filter, ltb,
  ◌==◌, if◌then◌else◌, set,
}
use expense_reimbursement_ta.Prelude.Result.{Result, ok, err, ◌>>=◌}
use expense_reimbursement_ta.Models.{
  DateTime, Role, ApprovalDecision, ClaimStatus, is_finance, is_pending,
}
use expense_reimbursement_ta.Claims.Rows.{ApprovalStep, SettlementClaim, Remark}
use expense_reimbursement_ta.Claims.Lifecycle.{TransitionError, assert_transition}

pub data DecisionError : Type 0 where
  concurrent_modification : (version expected : ℕ) → DecisionError
  no_pending_step : DecisionError
  invalid_transition : TransitionError → DecisionError

pub record DecisionResult : Type 0 where
  pub claim_status : ClaimStatus
  pub step_sequence : ℕ
  pub new_version : ℕ

-- The `ClaimEvent` of a decision.
pub record DecisionEvent : Type 0 where
  pub claim_id : ℕ
  pub travel_request_id : ℕ
  pub actor_employee_id : Option ℕ
  pub action : ApprovalDecision
  pub sequence : ℕ
  pub role : Role
  pub remarks : Option Remark
  pub claim_status : ClaimStatus

-- The test of a step that awaits a decision in a round.
unfoldable pub awaits : ℕ → ApprovalStep → Bool
awaits round step =
    not step.superseded && step.submission_round == round && is_pending step.decision

-- A step with its place among the claim's steps.
abbrev pub Placed : Type 0
Placed = ℕ × ApprovalStep

-- The steps of a round that await a decision, each with its place, which counts from `i`.
unfoldable pub pending_steps : ℕ → ℕ → List ApprovalStep → List Placed
unfolding awaits
pending_steps round i [] = []
pending_steps round i (s ∷ rest) =
    let more = pending_steps round (suc i) rest in if awaits round s then (i, s) ∷ more else more

-- `sorted(..., key=sequence)[0]`, and `min(..., key=sequence)`: the first with the least sequence.
unfoldable pub earliest : Placed → List Placed → Placed
earliest p [] = p
earliest p (q ∷ rest) = earliest (if ltb q.1.sequence p.1.sequence then q else p) rest

unfoldable pub first_of : List Placed → Result DecisionError Placed
unfolding earliest
first_of [] = err no_pending_step
first_of (p ∷ rest) = ok (earliest p rest)

unfoldable pub current_step : SettlementClaim → Result DecisionError Placed
unfolding pending_steps first_of
current_step claim = first_of (pending_steps (claim.return_count + 1) 0 claim.approval_steps)

-- The pending steps behind the one that is decided.
unfoldable pub remaining : SettlementClaim → ApprovalStep → List Placed
unfolding pending_steps
remaining claim step =
    filter (λ other. ltb step.sequence other.1.sequence)
      (pending_steps (claim.return_count + 1) 0 claim.approval_steps)

unfoldable pub status_of_remaining : List Placed → ClaimStatus
unfolding earliest
status_of_remaining [] = ClaimStatus.verified
status_of_remaining (p ∷ rest) =
    if is_finance (earliest p rest).1.role
    then ClaimStatus.pending_finance
    else ClaimStatus.pending_approval

-- `_target_status`
unfoldable pub target_status : SettlementClaim → ApprovalStep → ApprovalDecision → ClaimStatus
unfolding remaining status_of_remaining
target_status claim step ApprovalDecision.rejected = ClaimStatus.rejected
target_status claim step ApprovalDecision.returned = ClaimStatus.draft
target_status claim step ApprovalDecision.approved = status_of_remaining (remaining claim step)
target_status claim step ApprovalDecision.pending = status_of_remaining (remaining claim step)

-- `approver_employee_id or step.approver_employee_id`: an id of 0 counts as missing.
unfoldable pub id_or : Option ℕ → Option ℕ → Option ℕ
id_or none other = other
id_or (some n) other = if n == 0 then other else some n

unfoldable pub decided_step :
    DateTime → ApprovalDecision → Option ℕ → Option Remark → ApprovalStep → ApprovalStep
unfolding id_or
decided_step now decision approver remarks step = record {
  sequence = step.sequence;
  role = step.role;
  approver_employee_id = id_or approver step.approver_employee_id;
  decision = decision;
  decided_at = some now;
  remarks = remarks;
  superseded = step.superseded;
  submission_round = step.submission_round;
}

-- `if other.submission_round == round: other.superseded = True`
unfoldable pub supersede : ℕ → ApprovalStep → ApprovalStep
supersede round s = record {
  sequence = s.sequence;
  role = s.role;
  approver_employee_id = s.approver_employee_id;
  decision = s.decision;
  decided_at = s.decided_at;
  remarks = s.remarks;
  superseded = if s.submission_round == round then true else s.superseded;
  submission_round = s.submission_round;
}

abbrev pub is_returned : ApprovalDecision → Bool
is_returned ApprovalDecision.returned = true
is_returned _ = false

-- The claim after its step at place `i` has been replaced, in the status that the decision leads
-- to.
unfoldable pub decided_claim :
    SettlementClaim → ApprovalDecision → ClaimStatus → ℕ → ApprovalStep → SettlementClaim
unfolding supersede
decided_claim claim decision target i step =
    let steps = set claim.approval_steps i step in
    record {
      id = claim.id;
      travel_request_id = claim.travel_request_id;
      status = target;
      version = claim.version + 1;
      return_count = if is_returned decision then claim.return_count + 1 else claim.return_count;
      submitted_at = claim.submitted_at;
      lines = claim.lines;
      summary = claim.summary;
      approval_steps =
          if is_returned decision then map (supersede (claim.return_count + 1)) steps else steps;
    }

unfoldable lift : {A : Type 0} → Result TransitionError A → Result DecisionError A
lift (ok a) = ok a
lift (err e) = err (invalid_transition e)

unfoldable pub record_decision :
    (now : DateTime) (claim : SettlementClaim) (expected_version : ℕ) (decision : ApprovalDecision)
    (approver_employee_id : Option ℕ) (remarks : Option Remark)
    → Result DecisionError (SettlementClaim × DecisionEvent × DecisionResult)
unfolding lift current_step target_status decided_step decided_claim
record_decision now claim expected_version decision approver_employee_id remarks =
    if not (claim.version == expected_version)
    then err (concurrent_modification claim.version expected_version)
    else do
      (i, step) ← current_step claim
      let target = target_status claim step decision
      passed ← lift (assert_transition claim.status target)
      let written = decided_step now decision approver_employee_id remarks step
      let after = decided_claim claim decision target i written
      let event : DecisionEvent = record {
        claim_id = claim.id;
        travel_request_id = claim.travel_request_id;
        actor_employee_id = approver_employee_id;
        action = decision;
        sequence = written.sequence;
        role = written.role;
        remarks = remarks;
        claim_status = target;
      }
      let result : DecisionResult = record {
        claim_status = target;
        step_sequence = written.sequence;
        new_version = after.version;
      }
      ok (after, event, result)
