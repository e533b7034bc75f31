-- ===== src/Approvals/Queue/Delivery.antt =====
-- Whom a decision notifies (`decide` of approvals/router.py, `notify_decided` of
-- notifications/service.py).
use expense_reimbursement_ta.Prelude.{
  ℕ, ◌+◌, ◌<◌, ◌≡◌, ◌≢◌, refl, sym, ap, subst, ◌∙◌, true, false, Option, some, List, [], ◌∷◌, arith,
  ltb, ◌==◌, inl, inr, none, All, Option-cases, get_elem?, get_elem?-set, set, Any, here, there,
  head?, filter, map_some,
}
use expense_reimbursement_ta.Prelude.Result.{ok}
use expense_reimbursement_ta.Prelude.Text.{Text}
use expense_reimbursement_ta.Models.{
  ApprovalDecision, ClaimStatus, DateTime, Role, Verdict, decision_of,
}
use expense_reimbursement_ta.Claims.Rows.{ApprovalStep, Remark, SettlementClaim, said}
use expense_reimbursement_ta.Claims.Serialisers.{front, pending_in_round}
use expense_reimbursement_ta.Claims.Serialisers.Front.{front_current}
use expense_reimbursement_ta.Approvals.Service.{
  DecisionEvent, DecisionResult, awaits, decided_claim, decided_step, record_decision,
}
use expense_reimbursement_ta.Approvals.Service.Decisions.{current_step-IsCurrent}
use expense_reimbursement_ta.Approvals.Service.Outcomes.{
  record_decision_sound, result-event_sequence,
}
use expense_reimbursement_ta.Approvals.Service.Invariant.{IsWellFormed}
use expense_reimbursement_ta.Approvals.Service.Rounds.{awaits_parts, decided_step-IsDecided}
use expense_reimbursement_ta.Approvals.Queue.{
  Decided, RecordDecisionRequest, RoutedClaim, decide, joined, steps_behind,
}
use expense_reimbursement_ta.Approvals.Queue.Guards.{decide_sound}
use expense_reimbursement_ta.Identity.{Employee}
use expense_reimbursement_ta.Notifications.{
  Notification, NotificationKind, Wording, approver_of, ask, named_approver, notify, notify_decided,
  passed_on, to_approver, told, approved_to_you,
}
use expense_reimbursement_ta.Tables.{Tables}

head?-filter_kept :
    (n : ℕ) (xs : List ApprovalStep) (x : ApprovalStep)
    → head? xs ≡ some x
    → n < x.sequence
    → head? (filter (λ step. ltb n step.sequence) xs) ≡ some x
head?-filter_kept n [] x e h = cc
head?-filter_kept n (y ∷ ys) x e h =
    let same : y ≡ x = cc in
    let behind : ltb n y.sequence ≡ true = rw same (ground (arith, h)) in rw behind e

-- A notification of a person that a claim awaits their approval.
abbrev pub Asks : ℕ → Notification → Type 0
Asks user n = (n.recipient_employee_id ≡ user) × (n.kind ≡ NotificationKind.awaiting_your_approval)

module _ (now : DateTime) (claim : SettlementClaim) (expected : ℕ) (approver : Option ℕ)
    (remarks : Option Remark) (after : SettlementClaim) (event : DecisionEvent)
    (result : DecisionResult)
    (done : record_decision now claim expected ApprovalDecision.approved approver remarks
      ≡ ok (after, event, result))
    (well_formed : IsWellFormed claim) where
  -- What is at the front of a round after an approval comes behind the step that was approved.
  front-behind :
      (next : ApprovalStep) → front after ≡ some next → result.step_sequence < next.sequence
  unfolding decided_claim decided_step
  front-behind next left =
      let (_, i, step, (at_i, live, least), _, same, _, _, _, _, number) =
        record_decision_sound now claim expected ApprovalDecision.approved approver remarks after
          event result done in
      let written = decided_step now ApprovalDecision.approved approver remarks step in
      let (k, current) = front_current after next left in
      let (at_k, live_k, _) = current_step-IsCurrent after k next current in
      let rounds : after.return_count ≡ claim.return_count = ap (λ c. c.return_count) same in
      let place : get_elem? (set claim.approval_steps i written) k ≡ some next =
        subst (λ steps. get_elem? steps k ≡ some next) (ap (λ c. c.approval_steps) same) at_k in
      let awaiting : awaits (claim.return_count + 1) next ≡ true =
        subst (λ n. awaits (n + 1) next ≡ true) rounds live_k in
      let reported : result.step_sequence ≡ step.sequence =
        result-event_sequence now claim expected ApprovalDecision.approved approver remarks after
          event result done
        ∙ number in
      elim (get_elem?-set claim.approval_steps i k written next place) [
        | inl (_, value) ↦
            let over : awaits (claim.return_count + 1) written ≡ false =
              decided_step-IsDecided now approver remarks (claim.return_count + 1) step in
            let x : awaits (claim.return_count + 1) next ≡ false =
              subst (λ s. awaits (claim.return_count + 1) s ≡ false) value over in
            cc
        | inr (elsewhere, old) ↦
            let low = least k next old awaiting in
            let mine = awaits_parts (claim.return_count + 1) step live in
            let theirs = awaits_parts (claim.return_count + 1) next awaiting in
            let apart : step.sequence ≢ next.sequence = λ e.
              elsewhere (sym (well_formed.1 i k step next at_i old (mine.0 ∙ sym theirs.0) e)) in
            omega (arith, low, apart, reported)
      ]

  -- The step that an approval passes the claim on to is the one that is then at the front.
  front-passed : head? (steps_behind after result.step_sequence) ≡ front after
  unfolding steps_behind front
  front-passed = elim (Option-cases (front after)) [
    | inl a ↦ rw a (nothing_behind (pending_in_round after) a)
    | inr (next, a) ↦ rw a (
        head?-filter_kept result.step_sequence (pending_in_round after) next a
          (front-behind next a))
  ]
    where
      nothing_behind :
          (xs : List ApprovalStep)
          → head? xs ≡ none
          → head? (filter (λ step. ltb result.step_sequence step.sequence) xs) ≡ none
      nothing_behind [] e = refl
      nothing_behind (x ∷ xs) e = cc

approver_of-some :
    (next : ApprovalStep) (user : ℕ)
    → next.approver_employee_id ≡ some user
    → user ≢ 0
    → approver_of (some next) ≡ some user
unfolding approver_of
approver_of-some next user e differs =
    let present : (user == 0) ≡ false = ground (arith, differs) in rw e (rw present refl)

-- A step that is addressed to a person makes a notification to them.
pub to_approver-Asks :
    (next : ApprovalStep) (user : ℕ) (wording : ℕ → Role → Wording) (trq_id : Text)
    (claim : SettlementClaim) (actor : ℕ)
    → next.approver_employee_id ≡ some user
    → user ≢ 0
    → Any (Asks user) (to_approver (some next) wording trq_id claim actor)
unfolding to_approver ask notify
to_approver-Asks next user wording trq_id claim actor e differs =
    rw (approver_of-some next user e differs) (here (refl, refl))

-- Whom a verdict asks to approve next: after an approval, the approver of the step at the front.
abbrev pub asked : Verdict → Option ApprovalStep → Option ℕ
asked Verdict.approved at_front = approver_of at_front
asked _ at_front = none

-- The person is asked for their approval, or, where there is none, nobody is.
abbrev pub IsAsked : Option ℕ → List Notification → Type 0
IsAsked none sent = All (λ n. n.kind ≢ NotificationKind.awaiting_your_approval) sent
IsAsked (some user) sent = Any (Asks user) sent

ask-IsAsked :
    (user : Option ℕ) (wording : Wording) (trq_id : Text) (claim : SettlementClaim) (actor : ℕ)
    → IsAsked user (ask user wording trq_id claim actor)
unfolding ask notify
ask-IsAsked none wording trq_id claim actor = tt
ask-IsAsked (some user) wording trq_id claim actor = here (refl, refl)

passed_on-IsAsked :
    (verdict : Verdict) (next : Option ApprovalStep) (wording : ℕ → Role → Wording) (trq_id : Text)
    (claim : SettlementClaim) (actor : ℕ)
    → IsAsked (asked verdict next) (passed_on verdict next wording trq_id claim actor)
unfolding passed_on to_approver approver_of
passed_on-IsAsked Verdict.approved none wording trq_id claim actor = tt
passed_on-IsAsked Verdict.approved (some step) wording trq_id claim actor =
    ask-IsAsked (approver_of (some step)) (wording step.sequence step.role) trq_id claim actor
passed_on-IsAsked Verdict.rejected next wording trq_id claim actor = tt
passed_on-IsAsked Verdict.returned next wording trq_id claim actor = tt

told_no_ask :
    (verdict : Verdict) (status : ClaimStatus) (name : Option (Text × Role))
    → (told verdict status name).0 ≢ NotificationKind.awaiting_your_approval
unfolding told
told_no_ask verdict status name = ground arith

first-IsAsked :
    (user : Option ℕ) (n : Notification) (rest : List Notification)
    → n.kind ≢ NotificationKind.awaiting_your_approval
    → IsAsked user rest
    → IsAsked user (n ∷ rest)
first-IsAsked none n rest h k = (h, k)
first-IsAsked (some user) n rest h k = there k

asked_next :
    (verdict : Verdict) (next at_front : Option ApprovalStep)
    → (verdict ≡ Verdict.approved → next ≡ at_front)
    → asked verdict next ≡ asked verdict at_front
asked_next Verdict.approved next at_front same = ap approver_of (same refl)
asked_next Verdict.rejected next at_front same = refl
asked_next Verdict.returned next at_front same = refl

-- The claimant is among those that are notified, by a notification that asks for nothing.
abbrev pub IsTold : ℕ → List Notification → Type 0
IsTold claimant sent =
    Any
      (λ n.
        (n.recipient_employee_id ≡ claimant) × (n.kind ≢ NotificationKind.awaiting_your_approval))
      sent

notify_decided-IsAsked :
    (employees : List Employee) (claim : SettlementClaim) (trq_id : Text)
    (claimant actor : Employee) (verdict : Verdict) (remarks : Option Text)
    (next : Option ApprovalStep)
    → IsTold claimant.id (notify_decided employees claim trq_id claimant actor verdict remarks next)
      × IsAsked
          (asked verdict next)
          (notify_decided employees claim trq_id claimant actor verdict remarks next)
unfolding notify_decided notify
notify_decided-IsAsked employees claim trq_id claimant actor verdict remarks next =
    let plain = told_no_ask verdict claim.status (named_approver employees next) in
    let rest =
      passed_on verdict next
        (λ sequence role. approved_to_you actor.name claimant.name trq_id sequence role) trq_id
        claim actor.id in
    (
      here (refl, plain),
      first-IsAsked (asked verdict next) _ rest plain (
          passed_on-IsAsked verdict next
            (λ sequence role. approved_to_you actor.name claimant.name trq_id sequence role) trq_id
            claim actor.id),
    )

-- A decision that the endpoint records on a well-formed claim notifies the claimant, whatever it is
-- and whatever is left of the round. After an approval that leaves a step at the front of the claim's
-- round which is addressed to a person, whose id is not 0, that person is asked for their approval;
-- after any other decision nobody is asked.
pub decide_notifies :
    (now : DateTime) (tables : Tables) (header : Option Text) (trq_id : Text)
    (payload : RecordDecisionRequest) (left : Decided) (row : RoutedClaim)
    → decide now tables header trq_id payload ≡ ok left
    → joined tables trq_id ≡ some row
    → IsWellFormed row.claim
    → IsTold row.claimant.id left.notifications
      × IsAsked (asked payload.decision (front left.claim)) left.notifications
decide_notifies now tables header trq_id payload left row decides found well_formed =
    let (user, row2, i, step, result, _, _, _, found2, _, _, _, recorded, written) =
      decide_sound now tables header trq_id payload left decides in
    let same : row2 ≡ row = cc in
    let well_formed2 : IsWellFormed row2.claim =
      subst (λ r. IsWellFormed r.claim) (sym same) well_formed in
    let next = head? (steps_behind left.claim result.step_sequence) in
    let passed = λ (approves : payload.decision ≡ Verdict.approved).
      front-passed now row2.claim payload.expected_version (some user.id)
        (map_some said payload.remarks) left.claim left.event result
        (subst
          (λ v.
            record_decision now row2.claim payload.expected_version (decision_of v) (some user.id)
              (map_some said payload.remarks)
            ≡ ok (left.claim, left.event, result))
          approves recorded)
        well_formed2 in
    let (claimant_told, next_asked) =
      notify_decided-IsAsked tables.employees left.claim row2.request.trq_id row2.claimant user
        payload.decision payload.remarks next in
    (
      subst (λ r. IsTold r.claimant.id left.notifications) same
          (subst (IsTold row2.claimant.id) (sym written) claimant_told),
      subst (λ u. IsAsked u left.notifications)
          (asked_next payload.decision next (front left.claim) passed)
          (subst (IsAsked (asked payload.decision next)) (sym written) next_asked),
    )
