-- ===== src/Tests/Approvals.antt =====
-- Approvals at concrete inputs.
use expense_reimbursement_ta.Claims.Lifecycle.{check_can_submit}
use expense_reimbursement_ta.Prelude.{
  ℕ, ◌+◌, ◌≡◌, refl, true, false, Option, none, some, [], ◌∷◌, arith, All,
}
use expense_reimbursement_ta.Prelude.Int.{pos}
use expense_reimbursement_ta.Prelude.Result.{ok, err}
use expense_reimbursement_ta.Prelude.Text.{codes}
use expense_reimbursement_ta.Models.{ApprovalDecision, ClaimStatus, Role}
use expense_reimbursement_ta.Policy.Rev4.{rev4}
use expense_reimbursement_ta.Claims.Lifecycle.{assert_transition, cannot_go}
use expense_reimbursement_ta.Claims.Rows.{ApprovalStep, SettlementClaim}
use expense_reimbursement_ta.Claims.Materialise.{
  ClaimDraft, EmployeeIds, new_claim, submit, submitted,
}
use expense_reimbursement_ta.Approvals.Routing.Chain.{Numbered}
use expense_reimbursement_ta.Approvals.Service.{
  DecisionEvent, DecisionResult, concurrent_modification, current_step, decided_claim, decided_step,
  invalid_transition, record_decision, remaining, target_status,
}
use expense_reimbursement_ta.Approvals.Service.Decisions.{IsCurrent, IsDecided}
use expense_reimbursement_ta.Claims.Lifecycle.Transitions.{has_been, past_finance}
use expense_reimbursement_ta.Approvals.Service.History.Finance.{finance_before_payment, statuses}
use expense_reimbursement_ta.Approvals.Service.History.{
  Reached, first, decided, last_approval_refused, Reached-IsWellFormed, Reached-IsDecided,
}
use expense_reimbursement_ta.Approvals.Service.Invariant.{IsWellFormed}
use expense_reimbursement_ta.Approvals.Service.Outcomes.{
  record_decision_sound, second_decision_refused,
}
use expense_reimbursement_ta.Approvals.Service.Rounds.{IsRounded, return_starts_over}
use expense_reimbursement_ta.Tests.Settled.{cab_outcome, chain, chained, summary}
use expense_reimbursement_ta.Tests.Trip.{asha, now, people}

abbrev pub ids : EmployeeIds
ids = (codes "E1", 1) ∷ (codes "E2", 2) ∷ (codes "F1", 9) ∷ []

abbrev pub draft : ClaimDraft
draft = record {
  travel_request_id = 7;
  outcomes = cab_outcome ∷ [];
  summary = summary;
  chain = chain;
}

abbrev pub waiting : SettlementClaim
waiting = submitted now ids draft (new_claim 40 7)

pub submits : submit now ids 40 draft none ≡ ok waiting
unfolding submit submitted check_can_submit assert_transition
submits = refl

counted : Numbered 1 draft.chain
counted = (refl, (refl, tt))

routed_draft : Reached waiting
routed_draft = first now ids 40 draft (pos 17200, asha, people, rev4, false, chained) submits

pub waiting-IsWellFormed : IsWellFormed waiting
waiting-IsWellFormed = Reached-IsWellFormed waiting routed_draft

Reached-IsWellFormed_example : IsWellFormed waiting
Reached-IsWellFormed_example = Reached-IsWellFormed waiting routed_draft

-- Ravi approves, then Finance.
abbrev pub manager_step : ApprovalStep
manager_step = record {
  sequence = 1;
  role = Role.reporting_manager;
  approver_employee_id = some 2;
  decision = ApprovalDecision.pending;
  decided_at = none;
  remarks = none;
  superseded = false;
  submission_round = 1;
}

abbrev pub finance_row : ApprovalStep
finance_row = record {
  sequence = 2;
  role = Role.finance;
  approver_employee_id = some 9;
  decision = ApprovalDecision.pending;
  decided_at = none;
  remarks = none;
  superseded = false;
  submission_round = 1;
}

abbrev pub with_finance : SettlementClaim
with_finance =
    decided_claim waiting ApprovalDecision.approved ClaimStatus.pending_finance 0
      (decided_step now ApprovalDecision.approved (some 2) none manager_step)

abbrev pub verified : SettlementClaim
verified =
    decided_claim with_finance ApprovalDecision.approved ClaimStatus.verified 1
      (decided_step now ApprovalDecision.approved (some 9) none finance_row)

abbrev pub event_of : Option ℕ → ApprovalDecision → ℕ → Role → ClaimStatus → DecisionEvent
event_of actor decision sequence role target = record {
  claim_id = 40;
  travel_request_id = 7;
  actor_employee_id = actor;
  action = decision;
  sequence = sequence;
  role = role;
  remarks = none;
  claim_status = target;
}

abbrev pub result_of : ClaimStatus → ℕ → ℕ → DecisionResult
result_of target sequence version = record {
  claim_status = target;
  step_sequence = sequence;
  new_version = version;
}

abbrev pub manager_event : DecisionEvent
manager_event =
    event_of (some 2) ApprovalDecision.approved 1 Role.reporting_manager ClaimStatus.pending_finance

abbrev finance_event : DecisionEvent
finance_event = event_of (some 9) ApprovalDecision.approved 2 Role.finance ClaimStatus.verified

pub manager_approves :
    record_decision now waiting 2 ApprovalDecision.approved (some 2) none
    ≡ ok (with_finance, manager_event, result_of ClaimStatus.pending_finance 1 3)
unfolding record_decision submitted decided_claim decided_step new_claim assert_transition
manager_approves = refl

finance_approves :
    record_decision now with_finance 3 ApprovalDecision.approved (some 9) none
    ≡ ok (verified, finance_event, result_of ClaimStatus.verified 2 4)
unfolding record_decision submitted decided_claim decided_step new_claim assert_transition
finance_approves = refl

record_decision_sound_example :
    (waiting.version ≡ 2)
    × (i : ℕ) × (step : ApprovalStep) × IsCurrent waiting i step
    × (assert_transition waiting.status (target_status waiting step ApprovalDecision.approved)
        ≡ ok tt)
    × (with_finance
        ≡ decided_claim waiting ApprovalDecision.approved
            (target_status waiting step ApprovalDecision.approved)
            i
            (decided_step now ApprovalDecision.approved (some 2) none step))
    × (with_finance.version ≡ 3)
    × (3 ≡ with_finance.version)
    × (ClaimStatus.pending_finance ≡ with_finance.status)
    × (ClaimStatus.pending_finance ≡ with_finance.status)
    × (1 ≡ step.sequence)
record_decision_sound_example =
    record_decision_sound now waiting 2 ApprovalDecision.approved (some 2) none with_finance
      manager_event (result_of ClaimStatus.pending_finance 1 3) manager_approves

second_decision_refused_example :
    record_decision now with_finance 2 ApprovalDecision.rejected (some 2) none
    ≡ err (concurrent_modification 3 2)
second_decision_refused_example =
    second_decision_refused now waiting 2 ApprovalDecision.approved (some 2) none with_finance
      manager_event (result_of ClaimStatus.pending_finance 1 3) manager_approves now
      ApprovalDecision.rejected (some 2) none

Reached-verified : Reached verified
Reached-verified =
    decided now with_finance 3 ApprovalDecision.approved (some 9) none finance_event
      (result_of ClaimStatus.verified 2 4)
      (decided now waiting 2 ApprovalDecision.approved (some 2) none manager_event
        (result_of ClaimStatus.pending_finance 1 3) routed_draft refl manager_approves)
      refl finance_approves

is_verified : verified.status ≡ ClaimStatus.verified
unfolding decided_claim
is_verified = refl

Reached-IsDecided_example : IsDecided verified
Reached-IsDecided_example = Reached-IsDecided verified Reached-verified is_verified

verified_past : past_finance verified.status ≡ true
unfolding decided_claim
verified_past = refl

finance_before_payment_example :
    has_been ClaimStatus.pending_finance (statuses Reached-verified) ≡ true
finance_before_payment_example = finance_before_payment verified Reached-verified verified_past

-- Ravi returns the claim.
abbrev returned_claim : SettlementClaim
returned_claim =
    decided_claim waiting ApprovalDecision.returned ClaimStatus.draft 0
      (decided_step now ApprovalDecision.returned (some 2) none manager_step)

abbrev return_event : DecisionEvent
return_event =
    event_of (some 2) ApprovalDecision.returned 1 Role.reporting_manager ClaimStatus.draft

manager_returns :
    record_decision now waiting 2 ApprovalDecision.returned (some 2) none
    ≡ ok (returned_claim, return_event, result_of ClaimStatus.draft 1 3)
unfolding record_decision submitted decided_claim decided_step new_claim assert_transition
manager_returns = refl

first_round : IsRounded waiting
unfolding submitted new_claim
first_round = (omega arith, (omega arith, tt))

return_starts_over_example :
    (returned_claim.status ≡ ClaimStatus.draft)
    × (returned_claim.return_count ≡ waiting.return_count + 1)
    × All
        (λ s. s.submission_round ≡ waiting.return_count + 1 → s.superseded ≡ true)
        returned_claim.approval_steps
    × IsDecided returned_claim
    × IsRounded returned_claim
return_starts_over_example =
    return_starts_over now waiting 2 (some 2) none returned_claim return_event
      (result_of ClaimStatus.draft 1 3) first_round manager_returns

-- A claim that only Finance is left to decide at its submission: nobody above the claimant.
abbrev finance_alone : SettlementClaim
finance_alone = record {
  id = 41;
  travel_request_id = 8;
  status = ClaimStatus.pending_approval;
  version = 2;
  return_count = 0;
  submitted_at = some now;
  lines = [];
  summary = none;
  approval_steps = finance_row ∷ [];
}

finance_next : current_step finance_alone ≡ ok (0, finance_row)
unfolding current_step
finance_next = refl

nobody_behind : remaining finance_alone finance_row ≡ []
unfolding remaining
nobody_behind = refl

last_approval_refused_example :
    record_decision now finance_alone 2 ApprovalDecision.approved (some 9) none
    ≡ err (invalid_transition (cannot_go ClaimStatus.pending_approval ClaimStatus.verified))
last_approval_refused_example =
    last_approval_refused now finance_alone 0 finance_row (some 9) none refl finance_next
      nobody_behind
