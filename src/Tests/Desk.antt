-- ===== src/Tests/Desk.antt =====
-- The routers of approvals, trips and notifications at concrete inputs.
use expense_reimbursement_ta.Prelude.Text.{strip, is_empty}
use expense_reimbursement_ta.Prelude.{
  ℕ, ◌≡◌, ◌≢◌, refl, true, false, ◌&&◌, Option, none, some, [], ◌∷◌, head?,
}
use expense_reimbursement_ta.Prelude.Result.{ok, err}
use expense_reimbursement_ta.Prelude.Text.{Text, codes}
use expense_reimbursement_ta.Models.{
  ApprovalDecision, CityClass, ClaimStatus, Role, Verdict, decision_of,
}
use expense_reimbursement_ta.Approvals.Queue.{
  Decided, RecordDecisionRequest, RoutedClaim, Scope, concluded, decide, is_blank, is_return,
  joined, my_step, steps_behind,
}
use expense_reimbursement_ta.Approvals.Queue.Delivery.{IsAsked, IsTold, asked, decide_notifies}
use expense_reimbursement_ta.Approvals.Queue.Desk.{on_desk_decides, on_one_desk, rejected_on_desk}
use expense_reimbursement_ta.Approvals.Queue.Guards.{decide_sound}
use expense_reimbursement_ta.Approvals.Service.{
  DecisionResult, decided_claim, decided_step, invalid_transition, record_decision, target_status,
}
use expense_reimbursement_ta.Approvals.Service.Decisions.{IsCurrent}
use expense_reimbursement_ta.Approvals.Service.Progress.{ApprovalRun, approvals_verify}
use expense_reimbursement_ta.Approvals.Service.Refinement.{
  abstract_of, decide_queue, record_decision-decide_queue,
}
use expense_reimbursement_ta.Claims.Lifecycle.{assert_transition, cannot_go}
use expense_reimbursement_ta.Claims.Materialise.{new_claim, submitted}
use expense_reimbursement_ta.Claims.Rows.{ApprovalStep, SettlementClaim}
use expense_reimbursement_ta.Claims.Serialisers.{front, pending_in_round}
use expense_reimbursement_ta.Identity.{Employee, get_current_employee, is_admin, profile_for}
use expense_reimbursement_ta.Notifications.{notify_decided}
use expense_reimbursement_ta.Tables.{Tables, TravelRequest}
use expense_reimbursement_ta.Tests.Approvals.{
  finance_row, manager_approves, manager_event, manager_step, result_of, event_of, waiting,
  waiting-IsWellFormed, with_finance,
}
use expense_reimbursement_ta.Tests.Trip.{now}

abbrev pub employee : ℕ → Text → Text → Role → Option Text → Employee
employee id code name role manager = record {
  id = id;
  emp_code = code;
  name = name;
  email = code;
  designation = codes "Engineer";
  department = codes "Works";
  cost_centre = codes "C1";
  city = codes "Pune";
  role = role;
  reporting_manager_code = manager;
}

abbrev pub claimant : Employee
claimant = employee 1 (codes "E1") (codes "Asha Rao") Role.employee (some (codes "E2"))

abbrev pub manager : Employee
manager = employee 2 (codes "E2") (codes "Ravi") Role.reporting_manager none

abbrev pub officer : Employee
officer = employee 9 (codes "F1") (codes "Finance") Role.finance none

abbrev pub trip : TravelRequest
trip = record {
  id = 7;
  trq_id = codes "TRQ-2026-0001";
  employee_id = 1;
  from_date = 100;
  to_date = 104;
  destination_city = codes "Pune";
  city_class = CityClass.tier_2;
  visiting_company = none;
  purpose = codes "Audit";
  travel_category = codes "Domestic";
  mode_of_travel = codes "Flight";
  cost_centre = codes "C1";
  advance_requested = none;
  issued_on = none;
}

abbrev pub tables : Tables
tables = record {
  employees = claimant ∷ manager ∷ officer ∷ [];
  trips = trip ∷ [];
  claims = waiting ∷ [];
  documents = [];
}

abbrev row : RoutedClaim
row = record { request = trip; claim = waiting; claimant = claimant }

abbrev payload : RecordDecisionRequest
payload = record {
  decision = Verdict.approved;
  approver_code = codes "E2";
  expected_version = 2;
  remarks = none;
}

abbrev left : Decided
left =
    concluded tables row manager payload with_finance manager_event
      (result_of ClaimStatus.pending_finance 1 3)

decides : decide now tables (some (codes "E2")) (codes "TRQ-2026-0001") payload ≡ ok left
unfolding decide record_decision submitted decided_claim decided_step new_claim assert_transition
    is_empty strip front
decides = refl

decide_sound_example :
    (user : Employee) × (r : RoutedClaim) × (i : ℕ) × (step : ApprovalStep)
    × (result : DecisionResult) × (get_current_employee tables.employees (some (codes "E2"))
        ≡ ok user)
    × (codes "E2" ≡ user.emp_code)
    × (is_admin (profile_for user.role) ≡ true)
    × (joined tables (codes "TRQ-2026-0001") ≡ some r)
    × IsCurrent r.claim i step
    × (step.approver_employee_id ≡ some user.id)
    × (is_return Verdict.approved && is_blank none ≡ false)
    × (record_decision now r.claim 2 ApprovalDecision.approved (some user.id) none
        ≡ ok (left.claim, left.event, result))
    × (left.notifications
        ≡ notify_decided tables.employees left.claim r.request.trq_id r.claimant user
            Verdict.approved none
            (head? (steps_behind left.claim result.step_sequence)))
decide_sound_example =
    decide_sound now tables (some (codes "E2")) (codes "TRQ-2026-0001") payload left decides

found_row : joined tables (codes "TRQ-2026-0001") ≡ some row
unfolding joined submitted new_claim
found_row = refl

on_managers_desk : my_step waiting 2 Scope.pending ≡ some manager_step
unfolding my_step submitted new_claim
on_managers_desk = refl

on_one_desk_example :
    ((i : ℕ) × IsCurrent waiting i manager_step)
    × (manager_step.approver_employee_id ≡ some 2)
    × ((other : ℕ) → other ≢ 2 → my_step waiting other Scope.pending ≡ none)
on_one_desk_example = on_one_desk waiting 2 manager_step on_managers_desk

signed_in : get_current_employee tables.employees (some (codes "E2")) ≡ ok manager
unfolding get_current_employee is_empty strip
signed_in = refl

approver : is_admin (profile_for manager.role) ≡ true
unfolding profile_for
approver = refl

not_blank : is_return payload.decision && is_blank payload.remarks ≡ false
unfolding is_blank
not_blank = refl

version_two : 2 ≡ waiting.version
unfolding submitted new_claim
version_two = refl

may_pass :
    assert_transition waiting.status (target_status waiting manager_step ApprovalDecision.approved)
    ≡ ok tt
unfolding assert_transition submitted target_status new_claim
may_pass = refl

on_desk_decides_example :
    (done : Decided) × (decide now tables (some (codes "E2")) (codes "TRQ-2026-0001") payload
      ≡ ok done)
    × (done.claim.status ≡ target_status waiting manager_step ApprovalDecision.approved)
on_desk_decides_example =
    on_desk_decides now tables (some (codes "E2")) (codes "TRQ-2026-0001") payload manager row
      manager_step signed_in approver found_row on_managers_desk refl version_two not_blank may_pass

abbrev rejected_claim : SettlementClaim
rejected_claim =
    decided_claim waiting ApprovalDecision.rejected ClaimStatus.rejected 0
      (decided_step now ApprovalDecision.rejected (some 2) none manager_step)

rejects :
    record_decision now waiting 2 ApprovalDecision.rejected (some 2) none
    ≡ ok (
      rejected_claim,
      event_of (some 2) ApprovalDecision.rejected 1 Role.reporting_manager ClaimStatus.rejected,
      result_of ClaimStatus.rejected 1 3,
    )
unfolding record_decision submitted new_claim assert_transition
rejects = refl

finance_in_front : front rejected_claim ≡ some finance_row
unfolding front decided_claim submitted new_claim decided_step
finance_in_front = refl

rejected_on_desk_example :
    (rejected_claim.status ≡ ClaimStatus.rejected)
    × (my_step rejected_claim 9 Scope.pending ≡ some finance_row)
    × ((later : _) (verdict : Verdict) (by : _) (words : _)
        → record_decision later rejected_claim rejected_claim.version (decision_of verdict) by words
          ≡ err (
              invalid_transition (
                cannot_go ClaimStatus.rejected
                  (target_status rejected_claim finance_row (decision_of verdict)))))
rejected_on_desk_example =
    rejected_on_desk now waiting 2 (some 2) none rejected_claim
      (event_of (some 2) ApprovalDecision.rejected 1 Role.reporting_manager ClaimStatus.rejected)
      (result_of ClaimStatus.rejected 1 3) finance_row 9 rejects finance_in_front refl

finance_next : front left.claim ≡ some finance_row
unfolding front concluded decided_claim submitted new_claim decided_step
finance_next = refl

decide_notifies_example :
    IsTold 1 left.notifications
    × IsAsked (asked Verdict.approved (front left.claim)) left.notifications
decide_notifies_example =
    decide_notifies now tables (some (codes "E2")) (codes "TRQ-2026-0001") payload left row decides
      found_row waiting-IsWellFormed

record_decision-decide_queue_example :
    decide_queue Verdict.approved (pending_in_round waiting) ≡ some (abstract_of with_finance)
record_decision-decide_queue_example =
    record_decision-decide_queue now waiting 2 Verdict.approved (some 2) none with_finance
      manager_event (result_of ClaimStatus.pending_finance 1 3) waiting-IsWellFormed
      manager_approves

two_wait : pending_in_round waiting ≡ manager_step ∷ finance_row ∷ []
unfolding pending_in_round submitted new_claim
two_wait = refl

awaits_approval : waiting.status ≡ ClaimStatus.pending_approval
unfolding submitted
awaits_approval = refl

approvals_verify_example :
    (after : SettlementClaim) × ApprovalRun 2 waiting after
    × (after.status ≡ ClaimStatus.verified)
    × (pending_in_round after ≡ [])
approvals_verify_example =
    approvals_verify now (some 2) none (manager_step ∷ []) finance_row waiting waiting-IsWellFormed
      two_wait (refl, tt) refl awaits_approval
