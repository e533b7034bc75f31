-- ===== src/Approvals/Service/Refinement.antt =====
-- `record_decision` of approvals/service.py against an abstract claim: its status and the queue of
-- the steps that await a decision, as the approvers see it (claims/serialisers.py).
use expense_reimbursement_ta.Prelude.{
  ℕ, ◌+◌, ◌<◌, ◌≡◌, ◌≢◌, refl, sym, ap, ◌∙◌, subst, true, false, Option, none, some, List, [], ◌∷◌,
  arith, filter, get_elem?, set, All-imp, head?,
}
use expense_reimbursement_ta.Prelude.Result.{ok}
use expense_reimbursement_ta.Prelude.Sort.{sorted}
use expense_reimbursement_ta.Models.{
  ApprovalDecision, ClaimStatus, DateTime, Verdict, decision_of, is_pending,
}
use expense_reimbursement_ta.Claims.Rows.{ApprovalStep, Remark, SettlementClaim}
use expense_reimbursement_ta.Claims.Serialisers.{front, pending_in_round}
use expense_reimbursement_ta.Claims.Serialisers.Front.{
  current_step-front, first_of-least, least_placed, number,
}
use expense_reimbursement_ta.Approvals.Service.{
  DecisionEvent, DecisionResult, awaits, current_step, decided_claim, decided_step, pending_steps,
  record_decision, remaining, status_of_remaining, target_status,
}
use expense_reimbursement_ta.Approvals.Service.Decisions.{IsCurrent}
use expense_reimbursement_ta.Approvals.Service.Invariant.{IsWellFormed, last_round_le}
use expense_reimbursement_ta.Approvals.Service.Outcomes.{record_decision_sound}
use expense_reimbursement_ta.Approvals.Service.Queue.{
  filter_nothing, pending_in_round-sorted, remaining-pending_steps, sorted-pops, status_at,
  status_of_remaining-status_at,
}
use expense_reimbursement_ta.Approvals.Service.Rounds.{awaits_parts, return_starts_over}

-- A claim, as far as the approvers are concerned.
pub record Abstract : Type 0 where
  pub status : ClaimStatus
  pub queue : List ApprovalStep

abbrev pub abstract : ClaimStatus → List ApprovalStep → Abstract
abstract status queue = record { status = status; queue = queue }

abbrev pub abstract_of : SettlementClaim → Abstract
abstract_of claim = abstract claim.status (pending_in_round claim)

-- What a decision does to an abstract claim: it is made on the front of the queue. An approval and a
-- rejection take that step off, and a return clears the queue; an approval leads to where the next
-- step says.
unfoldable pub decide_queue : Verdict → List ApprovalStep → Option Abstract
decide_queue verdict [] = none
decide_queue Verdict.approved (s ∷ rest) = some (abstract (status_at (head? rest)) rest)
decide_queue Verdict.rejected (s ∷ rest) = some (abstract ClaimStatus.rejected rest)
decide_queue Verdict.returned (s ∷ rest) = some (abstract ClaimStatus.draft [])

-- A step that was decided awaits nothing.
pub decided_over :
    (now : DateTime) (decision : ApprovalDecision) (approver : Option ℕ) (remarks : Option Remark)
    (round : ℕ) (step : ApprovalStep)
    → is_pending decision ≡ false
    → awaits round (decided_step now decision approver remarks step) ≡ false
unfolding awaits decided_step
decided_over now decision approver remarks round step e = ground (arith, e)

not_pending : (verdict : Verdict) → is_pending (decision_of verdict) ≡ false
not_pending Verdict.approved = refl
not_pending Verdict.rejected = refl
not_pending Verdict.returned = refl

module _ (claim : SettlementClaim) (i : ℕ) (step : ApprovalStep) (current : IsCurrent claim i step)
    (well_formed : IsWellFormed claim) where
  abbrev round : ℕ
  round = claim.return_count + 1

  -- The steps of a round are numbered apart, so the current one is strictly ahead.
  current-IsAhead :
      (k : ℕ) (other : ApprovalStep)
      → get_elem? claim.approval_steps k ≡ some other
      → awaits round other ≡ true
      → k ≢ i
      → step.sequence < other.sequence
  current-IsAhead k other at_k waiting differs =
      let low = current.2 k other at_k waiting in
      let mine = awaits_parts round step current.1 in
      let theirs = awaits_parts round other waiting in
      let apart : step.sequence ≢ other.sequence = λ e.
        differs (sym (well_formed.1 i k step other current.0 at_k (mine.0 ∙ sym theirs.0) e)) in
      omega (arith, low, apart)

  module _ (written : ApprovalStep) (after : SettlementClaim) (over : awaits round written ≡ false)
      (steps : after.approval_steps ≡ set claim.approval_steps i written)
      (rounds : after.return_count ≡ claim.return_count) where
    pub pops : pending_in_round claim ≡ step ∷ pending_in_round after
    pops =
        pending_in_round-sorted claim
        ∙ sorted-pops round step written current.1 over i claim.approval_steps current.0
            current-IsAhead
        ∙ sym (
            ap (λ xs. step ∷ xs)
              (pending_in_round-sorted after
                ∙ subst
                    (λ n.
                      sorted number (filter (awaits (after.return_count + 1)) after.approval_steps)
                      ≡ sorted number
                          (filter (awaits (n + 1)) (set claim.approval_steps i written)))
                    rounds
                    (ap (λ xs. sorted number (filter (awaits (after.return_count + 1)) xs)) steps)))

    pub next_status :
        status_of_remaining (remaining claim step) ≡ status_at (head? (pending_in_round after))
    unfolding remaining current_step front
    next_status =
        let left =
          remaining-pending_steps round step written current.1 over 0 i claim.approval_steps
            current.0 current-IsAhead in
        let same : pending_steps (after.return_count + 1) 0 after.approval_steps
            ≡ pending_steps round 0 (set claim.approval_steps i written) =
          ap (λ xs. pending_steps (after.return_count + 1) 0 xs) steps
          ∙ ap (λ n. pending_steps (n + 1) 0 (set claim.approval_steps i written)) rounds in
        status_of_remaining-status_at (remaining claim step)
        ∙ ap (λ xs. status_at (least_placed xs)) (left ∙ sym same)
        ∙ ap status_at (
            sym (first_of-least (pending_steps (after.return_count + 1) 0 after.approval_steps))
            ∙ current_step-front after)

-- On a well-formed claim, a decision that is recorded does to the claim's status and queue what the
-- abstract decision does: it takes the front step off the queue and leaves the others in order, or,
-- as a return, clears it.
pub record_decision-decide_queue :
    (now : DateTime) (claim : SettlementClaim) (expected : ℕ) (verdict : Verdict)
    (approver : Option ℕ) (remarks : Option Remark) (after : SettlementClaim)
    (event : DecisionEvent) (result : DecisionResult)
    → IsWellFormed claim
    → record_decision now claim expected (decision_of verdict) approver remarks
      ≡ ok (after, event, result)
    → decide_queue verdict (pending_in_round claim) ≡ some (abstract_of after)
unfolding decide_queue decided_claim target_status sorted
record_decision-decide_queue now claim expected Verdict.approved approver remarks after event result
      well_formed done =
    let (_, i, step, current, _, same, _, _, _, _, _) =
      record_decision_sound now claim expected ApprovalDecision.approved approver remarks after
        event result done in
    let written = decided_step now ApprovalDecision.approved approver remarks step in
    let over =
      decided_over now ApprovalDecision.approved approver remarks (claim.return_count + 1) step
        refl in
    let steps = ap (λ c. c.approval_steps) same in
    let rounds = ap (λ c. c.return_count) same in
    let status : after.status ≡ status_of_remaining (remaining claim step) =
      ap (λ c. c.status) same in
    let queue = pops claim i step current well_formed written after over steps rounds in
    let next = next_status claim i step current well_formed written after over steps rounds in
    ap (decide_queue Verdict.approved) queue
    ∙ ap (λ s. some (abstract s (pending_in_round after))) (sym (status ∙ next))
record_decision-decide_queue now claim expected Verdict.rejected approver remarks after event result
      well_formed done =
    let (_, i, step, current, _, same, _, _, _, _, _) =
      record_decision_sound now claim expected ApprovalDecision.rejected approver remarks after
        event result done in
    let written = decided_step now ApprovalDecision.rejected approver remarks step in
    let over =
      decided_over now ApprovalDecision.rejected approver remarks (claim.return_count + 1) step
        refl in
    let steps = ap (λ c. c.approval_steps) same in
    let rounds = ap (λ c. c.return_count) same in
    let status : after.status ≡ ClaimStatus.rejected = ap (λ c. c.status) same in
    ap (decide_queue Verdict.rejected)
      (pops claim i step current well_formed written after over steps rounds)
    ∙ ap (λ s. some (abstract s (pending_in_round after))) (sym status)
record_decision-decide_queue now claim expected Verdict.returned approver remarks after event result
      well_formed done =
    let (_, i, step, current, _, same, _, _, _, _, _) =
      record_decision_sound now claim expected ApprovalDecision.returned approver remarks after
        event result done in
    let rounded =
      All-imp claim.approval_steps (λ s h. omega (arith, h, last_round_le claim)) well_formed.0 in
    let (status, _, _, over, _) =
      return_starts_over now claim expected approver remarks after event result rounded done in
    let nothing : pending_in_round after ≡ [] =
      pending_in_round-sorted after
      ∙ ap (sorted number) (filter_nothing (after.return_count + 1) after.approval_steps over) in
    let queue =
      pops claim i step current well_formed
        (decided_step now ApprovalDecision.rejected approver remarks step)
        (decided_claim claim ApprovalDecision.rejected ClaimStatus.rejected i
          (decided_step now ApprovalDecision.rejected approver remarks step))
        (decided_over now ApprovalDecision.rejected approver remarks (claim.return_count + 1) step
          refl)
        refl refl in
    ap (decide_queue Verdict.returned) queue
    ∙ ap (λ s. some (abstract s [])) (sym status)
    ∙ ap (λ xs. some (abstract after.status xs)) (sym nothing)
