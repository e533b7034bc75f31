-- ===== src/Approvals/Service/Outcomes.antt =====
-- What `record_decision` of approvals/service.py leaves behind.
use expense_reimbursement_ta.Prelude.{
  ℕ, suc, ◌≡◌, refl, sym, ap, subst, ◌∙◌, ==_iff, true, false, Option, arith, ◌==◌, Bool-cases, inl,
  inr,
}
use expense_reimbursement_ta.Prelude.Result.{Result, ok, err, ok_inj, bind_ok}
use expense_reimbursement_ta.Models.{DateTime, ApprovalDecision}
use expense_reimbursement_ta.Claims.Rows.{ApprovalStep, SettlementClaim, Remark}
use expense_reimbursement_ta.Claims.Lifecycle.{TransitionError, assert_transition}
use expense_reimbursement_ta.Approvals.Service.{
  DecisionResult, DecisionEvent, lift, current_step, target_status, decided_step, decided_claim,
  record_decision, concurrent_modification, invalid_transition,
}
use expense_reimbursement_ta.Approvals.Service.Decisions.{IsCurrent, current_step-IsCurrent}

lift_ok : {A : Type 0} (r : Result TransitionError A) (a : A) → lift r ≡ ok a → r ≡ ok a
unfolding lift
lift_ok (ok b) a e = cc
lift_ok (err x) a e = cc

module _ (now : DateTime) (claim : SettlementClaim) (expected : ℕ) (decision : ApprovalDecision)
    (approver : Option ℕ) (remarks : Option Remark) (after : SettlementClaim)
    (event : DecisionEvent) (result : DecisionResult)
    (done : record_decision now claim expected decision approver remarks
      ≡ ok (after, event, result)) where
  -- A decision that is recorded was made on the claim's present version. It falls on the awaiting
  -- step of the claim's round that has the least sequence, and on no other step; the claim goes to
  -- the decision's target status, which the transition table allows, and to the next version; and
  -- the result and the event report that status.
  pub record_decision_sound :
      (claim.version ≡ expected)
      × (i : ℕ) × (step : ApprovalStep) × IsCurrent claim i step
      × (assert_transition claim.status (target_status claim step decision) ≡ ok tt)
      × (after
          ≡ decided_claim claim decision
              (target_status claim step decision)
              i
              (decided_step now decision approver remarks step))
      × (after.version ≡ suc expected)
      × (result.new_version ≡ after.version)
      × (result.claim_status ≡ after.status)
      × (event.claim_status ≡ after.status)
      × (event.sequence ≡ step.sequence)
  unfolding record_decision decided_claim decided_step
  record_decision_sound = elim (Bool-cases (claim.version == expected)) [
    | inr a ↦ let x = rw a at done in cc
    | inl a ↦
        let chain = rw a at done in
        let (placed, found, chain2) = bind_ok (current_step claim) _ (after, event, result) chain in
        let target = target_status claim placed.1 decision in
        let (_, passed, chain3) =
          bind_ok (lift (assert_transition claim.status target)) _ (after, event, result) chain2 in
        let same = ok_inj chain3 in
        let same_after = ap (λ t. t.0) (sym same) in
        let same_result = ap (λ t. t.2) (sym same) in
        let same_event = ap (λ t. t.1) (sym same) in
        let version : claim.version ≡ expected = (==_iff claim.version expected).0 a in
        (
          version,
          placed.0,
          placed.1,
          current_step-IsCurrent claim placed.0 placed.1 found,
          lift_ok (assert_transition claim.status target) tt passed,
          same_after,
          ap (λ c. c.version) same_after ∙ (omega (arith, version)),
          ap (λ r. r.new_version) same_result ∙ sym (ap (λ c. c.version) same_after),
          ap (λ r. r.claim_status) same_result ∙ sym (ap (λ c. c.status) same_after),
          ap (λ r. r.claim_status) same_event ∙ sym (ap (λ c. c.status) same_after),
          ap (λ r. r.sequence) same_event,
        )
  ]

  -- A second decision on the version that the first was made on is refused, whatever it is.
  pub second_decision_refused :
      (later : DateTime) (other : ApprovalDecision) (by : Option ℕ) (words : Option Remark)
      → record_decision later after expected other by words
        ≡ err (concurrent_modification (suc expected) expected)
  unfolding record_decision
  second_decision_refused later other by words =
      let (_, _, _, _, _, _, next, _, _, _, _) = record_decision_sound in
      let differs : (after.version == expected) ≡ false = rw next (ground arith) in
      rw (differs, next) refl

-- The result and the event name the same step.
pub result-event_sequence :
    (now : DateTime) (claim : SettlementClaim) (expected : ℕ) (decision : ApprovalDecision)
    (approver : Option ℕ) (remarks : Option Remark) (after : SettlementClaim)
    (event : DecisionEvent) (result : DecisionResult)
    → record_decision now claim expected decision approver remarks ≡ ok (after, event, result)
    → result.step_sequence ≡ event.sequence
unfolding record_decision
result-event_sequence now claim expected decision approver remarks after event result done =
    elim (Bool-cases (claim.version == expected)) [
      | inr a ↦ let x = rw a at done in cc
      | inl a ↦
          let chain = rw a at done in
          let (placed, _, chain2) = bind_ok (current_step claim) _ (after, event, result) chain in
          let target = target_status claim placed.1 decision in
          let (_, _, chain3) =
            bind_ok (lift (assert_transition claim.status target)) _ (after, event, result)
              chain2 in
          let same = ok_inj chain3 in subst (λ t. t.2.step_sequence ≡ t.1.sequence) same refl
    ]

-- A decision on the present version whose target the table allows is recorded.
pub record_decision_complete :
    (now : DateTime) (claim : SettlementClaim) (decision : ApprovalDecision) (approver : Option ℕ)
    (remarks : Option Remark) (i : ℕ) (step : ApprovalStep)
    → current_step claim ≡ ok (i, step)
    → assert_transition claim.status (target_status claim step decision) ≡ ok tt
    → (event : DecisionEvent) × (result : DecisionResult) × (record_decision now claim claim.version
          decision approver remarks
        ≡ ok (
          decided_claim claim decision
              (target_status claim step decision)
              i
              (decided_step now decision approver remarks step),
          event,
          result,
        ))
unfolding record_decision lift
record_decision_complete now claim decision approver remarks i step found allowed =
    let same : (claim.version == claim.version) ≡ true = ground arith in
    let target = target_status claim step decision in
    let event : DecisionEvent = record {
      claim_id = claim.id;
      travel_request_id = claim.travel_request_id;
      actor_employee_id = approver;
      action = decision;
      sequence = (decided_step now decision approver remarks step).sequence;
      role = (decided_step now decision approver remarks step).role;
      remarks = remarks;
      claim_status = target;
    } in
    let result : DecisionResult = record {
      claim_status = target;
      step_sequence = (decided_step now decision approver remarks step).sequence;
      new_version =
          (decided_claim claim decision target i
            (decided_step now decision approver remarks step)).version;
    } in
    (event, result, rw (same, found, allowed) refl)

-- A decision on the present version whose target the table does not allow is refused.
pub record_decision_refused :
    (now : DateTime) (claim : SettlementClaim) (decision : ApprovalDecision) (approver : Option ℕ)
    (remarks : Option Remark) (i : ℕ) (step : ApprovalStep) (e : TransitionError)
    → current_step claim ≡ ok (i, step)
    → assert_transition claim.status (target_status claim step decision) ≡ err e
    → record_decision now claim claim.version decision approver remarks ≡ err (invalid_transition e)
unfolding record_decision lift
record_decision_refused now claim decision approver remarks i step e found refused =
    let same : (claim.version == claim.version) ≡ true = ground arith in
    rw (same, found, refused) refl
