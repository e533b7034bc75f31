-- ===== src/Approvals/Queue/Guards.antt =====
-- Who may decide (approvals/router.py).
use expense_reimbursement_ta.Prelude.{
  ℕ, ◌≡◌, refl, ap, subst, true, false, ◌&&◌, Option, none, some, Bool-cases, inl, inr, head?,
  is_id, is_id→eq, map_some,
}
use expense_reimbursement_ta.Prelude.Result.{Result, ok, err, ok_inj, bind_ok}
use expense_reimbursement_ta.Prelude.Text.{Text, text_eq, text_eq→eq}
use expense_reimbursement_ta.Models.{DateTime, decision_of}
use expense_reimbursement_ta.Claims.Rows.{ApprovalStep, said}
use expense_reimbursement_ta.Claims.Serialisers.{front}
use expense_reimbursement_ta.Claims.Serialisers.Front.{front_current}
use expense_reimbursement_ta.Approvals.Service.{DecisionError, DecisionResult, record_decision}
use expense_reimbursement_ta.Approvals.Service.Decisions.{IsCurrent, current_step-IsCurrent}
use expense_reimbursement_ta.Approvals.Queue.{
  Decided, RecordDecisionRequest, RoutedClaim, decide, is_blank, is_routed_to, joined, admitted,
  answered, concluded, require_routed_claim, require_self, require_step, steps_behind, is_return,
}
use expense_reimbursement_ta.Identity.{
  Employee, admin_user, get_current_employee, is_admin, profile_for, require_admin,
}
use expense_reimbursement_ta.Notifications.{notify_decided}
use expense_reimbursement_ta.Tables.{Tables}

require_self_ok :
    (payload : RecordDecisionRequest) (user : Employee) (u : Unit {0})
    → require_self payload user ≡ ok u
    → payload.approver_code ≡ user.emp_code
unfolding require_self
require_self_ok payload user u e = elim (Bool-cases (text_eq payload.approver_code user.emp_code)) [
  | inl a ↦ text_eq→eq payload.approver_code user.emp_code a
  | inr a ↦ let x = rw a at e in cc
]

admitted_ok :
    (user : Employee) (found : Option RoutedClaim) (row : RoutedClaim)
    → admitted user found ≡ ok row
    → (found ≡ some row) × (is_routed_to user.id row.claim ≡ true)
unfolding admitted
admitted_ok user none row e = cc
admitted_ok user (some r) row e = elim (Bool-cases (is_routed_to user.id r.claim)) [
  | inl b ↦
      let x = rw b at e in
      let same : r ≡ row = ok_inj x in
      (ap some same, subst (λ y. is_routed_to user.id y.claim ≡ true) same b)
  | inr b ↦ let x = rw b at e in cc
]

require_step_ok :
    (payload : RecordDecisionRequest) (user : Employee) (found : Option ApprovalStep)
    (step : ApprovalStep)
    → require_step payload user found ≡ ok step
    → (found ≡ some step)
      × (step.approver_employee_id ≡ some user.id)
      × (is_return payload.decision && is_blank payload.remarks ≡ false)
unfolding require_step
require_step_ok payload user none step e = cc
require_step_ok payload user (some s) step e =
    elim (Bool-cases (is_id s.approver_employee_id user.id)) [
      | inl b ↦ elim (Bool-cases (is_return payload.decision && is_blank payload.remarks)) [
        | inl c ↦ let x = rw (b, c) at e in cc
        | inr c ↦
            let x = rw (b, c) at e in
            let same : s ≡ step = ok_inj x in
            (
              ap some same,
              subst (λ y. y.approver_employee_id ≡ some user.id) same
                  (is_id→eq s.approver_employee_id user.id b),
              c,
            )
      ]
      | inr b ↦ let x = rw b at e in cc
    ]

answered_ok : {A : Type 0} (r : Result DecisionError A) (a : A) → answered r ≡ ok a → r ≡ ok a
unfolding answered
answered_ok (ok x) a e = ap ok (ok_inj e)
answered_ok (err x) a e = cc

-- What holds of a person that the admin dependency lets in.
pub admin_user_ok :
    (tables : Tables) (header : Option Text) (user : Employee)
    → admin_user tables.employees header ≡ ok user
    → (get_current_employee tables.employees header ≡ ok user)
      × (is_admin (profile_for user.role) ≡ true)
unfolding admin_user require_admin
admin_user_ok tables header user e =
    let (person, found, rest) = bind_ok (get_current_employee tables.employees header) _ user e in
    elim (Bool-cases (is_admin (profile_for person.role))) [
      | inl a ↦
          let x = rw a at rest in
          let same : person ≡ user = ok_inj x in (rw (← same) found, rw (← same) a)
      | inr a ↦ let x = rw a at rest in cc
    ]

-- A decision that the endpoint records was made by the caller under their own code, an approver by
-- profile; it is on the claim of the named trip, and the step that awaits a decision with the least
-- sequence in the claim's round is addressed to that caller. A return has remarks that are not
-- blank. The claim and the event are those that `record_decision` leaves in the caller's name, and
-- the notifications are written for the step behind the one that is decided.
pub decide_sound :
    (now : DateTime) (tables : Tables) (header : Option Text) (trq_id : Text)
    (payload : RecordDecisionRequest) (left : Decided)
    → decide now tables header trq_id payload ≡ ok left
    → (user : Employee) × (row : RoutedClaim) × (i : ℕ) × (step : ApprovalStep)
      × (result : DecisionResult) × (get_current_employee tables.employees header ≡ ok user)
      × (payload.approver_code ≡ user.emp_code)
      × (is_admin (profile_for user.role) ≡ true)
      × (joined tables trq_id ≡ some row)
      × IsCurrent row.claim i step
      × (step.approver_employee_id ≡ some user.id)
      × (is_return payload.decision && is_blank payload.remarks ≡ false)
      × (record_decision now row.claim payload.expected_version
            (decision_of payload.decision)
            (some user.id)
            (map_some said payload.remarks)
          ≡ ok (left.claim, left.event, result))
      × (left.notifications
          ≡ notify_decided tables.employees left.claim row.request.trq_id row.claimant user
              payload.decision payload.remarks
              (head? (steps_behind left.claim result.step_sequence)))
unfolding decide require_routed_claim concluded
decide_sound now tables header trq_id payload left e =
    let (user, found, e1) = bind_ok (admin_user tables.employees header) _ left e in
    let (_, self, e2) = bind_ok (require_self payload user) _ left e1 in
    let (row, routed, e3) = bind_ok (require_routed_claim tables trq_id user) _ left e2 in
    let (step, addressed, e4) = bind_ok (require_step payload user (front row.claim)) _ left e3 in
    let recorded =
      record_decision now row.claim payload.expected_version (decision_of payload.decision)
        (some user.id) (map_some said payload.remarks) in
    let (done, wrote, e5) = bind_ok (answered recorded) _ left e4 in
    let (known, is_approver) = admin_user_ok tables header user found in
    let (at_front, to_user, remarked) =
      require_step_ok payload user (front row.claim) step addressed in
    let (i, current) = front_current row.claim step at_front in
    let same = ok_inj e5 in
    (
      user,
      row,
      i,
      step,
      done.2,
      known,
      require_self_ok payload user tt self,
      is_approver,
      (admitted_ok user (joined tables trq_id) row routed).0,
      current_step-IsCurrent row.claim i step current,
      to_user,
      remarked,
      subst (λ x. recorded ≡ ok (x.claim, x.event, done.2)) same (answered_ok recorded done wrote),
      subst
          (λ x.
            x.notifications
            ≡ notify_decided tables.employees x.claim row.request.trq_id row.claimant user
                payload.decision payload.remarks
                (head? (steps_behind x.claim done.2.step_sequence)))
          same refl,
    )
