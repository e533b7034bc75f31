-- ===== src/Approvals/Queue/Desk.antt =====
-- On whose desk a claim is (`approval_queue` and `decide` of approvals/router.py).
use expense_reimbursement_ta.Prelude.{
  ℕ, ◌≡◌, ◌≢◌, refl, ap, subst, true, false, ◌&&◌, Option, none, some, List, [], ◌∷◌, arith,
  Bool-cases, inl, inr, any, get_elem?, is_id, is_id→eq, map_some, zero, suc, Bool, sym,
}
use expense_reimbursement_ta.Prelude.Result.{ok, err}
use expense_reimbursement_ta.Prelude.Text.{Text, text_eq, text_eq_refl}
use expense_reimbursement_ta.Models.{ApprovalDecision, ClaimStatus, DateTime, Verdict, decision_of}
use expense_reimbursement_ta.Claims.Lifecycle.{assert_transition, cannot_go}
use expense_reimbursement_ta.Claims.Rows.{ApprovalStep, Remark, SettlementClaim, said}
use expense_reimbursement_ta.Claims.Serialisers.{addressed_to, front, pending_step_for}
use expense_reimbursement_ta.Claims.Serialisers.Front.{front_current}
use expense_reimbursement_ta.Approvals.Service.{
  DecisionEvent, DecisionResult, invalid_transition, record_decision, target_status, decided_claim,
  decided_step,
}
use expense_reimbursement_ta.Approvals.Service.Decisions.{IsCurrent, current_step-IsCurrent}
use expense_reimbursement_ta.Approvals.Service.Outcomes.{
  record_decision_complete, record_decision_refused, record_decision_sound,
}
use expense_reimbursement_ta.Approvals.Queue.{
  Decided, RecordDecisionRequest, RoutedClaim, Scope, admitted, answered, concluded, decide,
  is_blank, is_return, is_routed_to, joined, my_step, require_routed_claim, require_self,
  require_step,
}
use expense_reimbursement_ta.Identity.{
  Employee, admin_user, get_current_employee, is_admin, profile_for, require_admin,
}
use expense_reimbursement_ta.Tables.{Tables}

addressed_to_inv :
    (user : ℕ) (found : Option ApprovalStep) (step : ApprovalStep)
    → addressed_to user found ≡ some step
    → (found ≡ some step) × (step.approver_employee_id ≡ some user)
addressed_to_inv user none step e = cc
addressed_to_inv user (some s) step e = elim (Bool-cases (is_id s.approver_employee_id user)) [
  | inl a ↦
      let x = rw a at e in
      let same : s ≡ step = cc in
      (
        x,
        subst (λ y. y.approver_employee_id ≡ some user) same
            (is_id→eq s.approver_employee_id user a),
      )
  | inr a ↦ let x = rw a at e in cc
]

-- A step in a person's pending queue is at the front of its claim's round, and addressed to them.
pending_inv :
    (claim : SettlementClaim) (user : ℕ) (step : ApprovalStep)
    → my_step claim user Scope.pending ≡ some step
    → (front claim ≡ some step) × (step.approver_employee_id ≡ some user)
unfolding my_step pending_step_for
pending_inv claim user step e = addressed_to_inv user (front claim) step e

is_id_ne : (user other : ℕ) → other ≢ user → is_id (some user) other ≡ false
is_id_ne user other differs = ground (arith, differs)

-- A claim in a person's pending queue is there for the step that a decision would fall on, which is
-- addressed to them, and it is in nobody else's.
pub on_one_desk :
    (claim : SettlementClaim) (user : ℕ) (step : ApprovalStep)
    → my_step claim user Scope.pending ≡ some step
    → ((i : ℕ) × IsCurrent claim i step)
      × (step.approver_employee_id ≡ some user)
      × ((other : ℕ) → other ≢ user → my_step claim other Scope.pending ≡ none)
unfolding my_step pending_step_for
on_one_desk claim user step e =
    let (at_front, to_user) = pending_inv claim user step e in
    let (i, current) = front_current claim step at_front in
    (
      (i, current_step-IsCurrent claim i step current),
      to_user,
      λ other differs. rw (at_front, to_user, is_id_ne user other differs) refl,
    )

own_id : (user : ℕ) → is_id (some user) user ≡ true
own_id user = ground arith

rejected_stays_put :
    (target : ClaimStatus)
    → assert_transition ClaimStatus.rejected target ≡ err (cannot_go ClaimStatus.rejected target)
unfolding assert_transition
rejected_stays_put target = refl

-- Where a step behind the rejected one is left, and addressed to a person, the rejected claim is in
-- that person's pending queue, and every decision that is taken on it from there is refused: the
-- table allows nothing from rejected.
pub rejected_on_desk :
    (now : DateTime) (claim : SettlementClaim) (expected : ℕ) (approver : Option ℕ)
    (remarks : Option Remark) (after : SettlementClaim) (event : DecisionEvent)
    (result : DecisionResult) (next : ApprovalStep) (user : ℕ)
    → record_decision now claim expected ApprovalDecision.rejected approver remarks
      ≡ ok (after, event, result)
    → front after ≡ some next
    → next.approver_employee_id ≡ some user
    → (after.status ≡ ClaimStatus.rejected)
      × (my_step after user Scope.pending ≡ some next)
      × ((later : DateTime) (verdict : Verdict) (by : Option ℕ) (words : Option Remark)
          → record_decision later after after.version (decision_of verdict) by words
            ≡ err (
                invalid_transition (
                  cannot_go ClaimStatus.rejected (target_status after next (decision_of verdict)))))
unfolding my_step pending_step_for decided_claim target_status
rejected_on_desk now claim expected approver remarks after event result next user done left
      to_user =
    let (_, i, step, _, _, same, _, _, _, _, _) =
      record_decision_sound now claim expected ApprovalDecision.rejected approver remarks after
        event result done in
    let (k, current) = front_current after next left in
    let status : after.status ≡ ClaimStatus.rejected = ap (λ c. c.status) same in
    (
      status,
      rw (left, to_user, own_id user) refl,
      λ later verdict by words.
          let target = target_status after next (decision_of verdict) in
          record_decision_refused later after (decision_of verdict) by words k next
            (cannot_go ClaimStatus.rejected target) current
            (subst (λ s. assert_transition s target ≡ err (cannot_go ClaimStatus.rejected target))
              (sym status) (rejected_stays_put target)),
    )

any-get_elem? :
    {A : Type 0} (p : A → Bool) (xs : List A) (i : ℕ) (x : A)
    → get_elem? xs i ≡ some x
    → p x ≡ true
    → any p xs ≡ true
any-get_elem? p [] i x e h = cc
any-get_elem? p (y ∷ ys) zero x e h =
    let same : y ≡ x = cc in let first : p y ≡ true = rw same h in rw first refl
any-get_elem? p (y ∷ ys) (suc i) x e h = elim (Bool-cases (p y)) [
  | inl a ↦ rw a refl
  | inr a ↦ rw a (any-get_elem? p ys i x e h)
]

-- An approver whose pending queue has the claim of a trip, and who decides under their own code on
-- the claim's present version, with remarks if it is a return, gets the decision recorded whenever
-- the table allows its target status: the claim goes there.
pub on_desk_decides :
    (now : DateTime) (tables : Tables) (header : Option Text) (trq_id : Text)
    (payload : RecordDecisionRequest) (user : Employee) (row : RoutedClaim) (step : ApprovalStep)
    → get_current_employee tables.employees header ≡ ok user
    → is_admin (profile_for user.role) ≡ true
    → joined tables trq_id ≡ some row
    → my_step row.claim user.id Scope.pending ≡ some step
    → payload.approver_code ≡ user.emp_code
    → payload.expected_version ≡ row.claim.version
    → (is_return payload.decision && is_blank payload.remarks) ≡ false
    → assert_transition row.claim.status
        (target_status row.claim step (decision_of payload.decision))
      ≡ ok tt
    → (left : Decided) × (decide now tables header trq_id payload ≡ ok left)
      × (left.claim.status ≡ target_status row.claim step (decision_of payload.decision))
unfolding decide admin_user require_admin require_self require_routed_claim admitted require_step
    answered is_routed_to decided_claim concluded
on_desk_decides now tables header trq_id payload user row step known is_approver found mine self
      version remarked allowed =
    let (at_front, to_user) = pending_inv row.claim user.id step mine in
    let (i, current) = front_current row.claim step at_front in
    let (place, _, _) = current_step-IsCurrent row.claim i step current in
    let own : is_id step.approver_employee_id user.id ≡ true = rw to_user (own_id user.id) in
    let routed : any (λ s. is_id s.approver_employee_id user.id) row.claim.approval_steps ≡ true =
      any-get_elem? (λ s. is_id s.approver_employee_id user.id) row.claim.approval_steps i step
        place own in
    let named : text_eq payload.approver_code user.emp_code ≡ true =
      rw self (text_eq_refl user.emp_code) in
    let (event, result, recorded) =
      record_decision_complete now row.claim (decision_of payload.decision) (some user.id)
        (map_some said payload.remarks) i step current allowed in
    let after =
      decided_claim row.claim (decision_of payload.decision)
        (target_status row.claim step (decision_of payload.decision)) i
        (decided_step now (decision_of payload.decision) (some user.id)
          (map_some said payload.remarks) step) in
    (
      concluded tables row user payload after event result,
      rw (known, is_approver, named, found, routed, at_front, own, remarked, version, recorded)
          refl,
      refl,
    )
