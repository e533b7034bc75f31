-- ===== src/Approvals/Service/Progress.antt =====
-- A submitted claim gets through: what the approvals of its queue lead to (approvals/service.py).
use expense_reimbursement_ta.Prelude.{
  ℕ, suc, ◌+◌, ◌≡◌, refl, sym, ap, ◌∙◌, subst, true, false, Option, List, [], ◌∷◌, ◌++◌, All, head?,
  length, Bool-cases, inl, inr,
}
use expense_reimbursement_ta.Prelude.Result.{ok}
use expense_reimbursement_ta.Models.{ApprovalDecision, ClaimStatus, DateTime, is_finance}
use expense_reimbursement_ta.Claims.Lifecycle.{assert_transition}
use expense_reimbursement_ta.Claims.Rows.{ApprovalStep, Remark, SettlementClaim}
use expense_reimbursement_ta.Claims.Serialisers.{front, pending_in_round}
use expense_reimbursement_ta.Claims.Serialisers.Front.{front_current}
use expense_reimbursement_ta.Approvals.Service.{
  DecisionEvent, DecisionResult, decided_claim, decided_step, record_decision, target_status,
}
use expense_reimbursement_ta.Approvals.Service.Decisions.{current_step-IsCurrent}
use expense_reimbursement_ta.Approvals.Service.Invariant.{
  IsWellFormed, record_decision-IsWellFormed,
}
use expense_reimbursement_ta.Approvals.Service.Outcomes.{record_decision_complete}
use expense_reimbursement_ta.Approvals.Service.Queue.{status_at}
use expense_reimbursement_ta.Approvals.Service.Refinement.{decided_over, next_status, pops}

-- The approvals, one after the other, that lead from a claim to another, each made on the version
-- that is then present.
pub data ApprovalRun : ℕ → SettlementClaim → SettlementClaim → Type 0 where
  no_more : (claim : SettlementClaim) → ApprovalRun 0 claim claim
  approved :
      (now : DateTime) (claim next after : SettlementClaim) (n : ℕ) (approver : Option ℕ)
      (remarks : Option Remark) (event : DecisionEvent) (result : DecisionResult)
      → record_decision now claim claim.version ApprovalDecision.approved approver remarks
        ≡ ok (next, event, result)
      → ApprovalRun n next after
      → ApprovalRun (suc n) claim after

tail_eq :
    (s t : ApprovalStep) (xs ys : List ApprovalStep)
    → ◌≡◌ {A = List ApprovalStep} (s ∷ xs) (t ∷ ys)
    → xs ≡ ys
tail_eq s t xs ys e = cc

module _ (now : DateTime) (approver : Option ℕ) (remarks : Option Remark) where
  -- What an approval of the front step leaves.
  abbrev Next : SettlementClaim → List ApprovalStep → Type 0
  Next claim rest =
      (next : SettlementClaim) × (event : DecisionEvent) × (result : DecisionResult)
      × (record_decision now claim claim.version ApprovalDecision.approved approver remarks
          ≡ ok (next, event, result))
      × (pending_in_round next ≡ rest)
      × (next.status ≡ status_at (head? rest))
      × IsWellFormed next

  approve_front :
      (claim : SettlementClaim) (step : ApprovalStep) (rest : List ApprovalStep)
      → IsWellFormed claim
      → pending_in_round claim ≡ step ∷ rest
      → assert_transition claim.status (status_at (head? rest)) ≡ ok tt
      → Next claim rest
  unfolding front target_status decided_claim
  approve_front claim step rest well_formed queue allowed =
      let (i, found) = front_current claim step (ap head? queue) in
      let current = current_step-IsCurrent claim i step found in
      let written = decided_step now ApprovalDecision.approved approver remarks step in
      let target = target_status claim step ApprovalDecision.approved in
      let next = decided_claim claim ApprovalDecision.approved target i written in
      let over =
        decided_over now ApprovalDecision.approved approver remarks (claim.return_count + 1) step
          refl in
      let left : pending_in_round next ≡ rest =
        tail_eq step step (pending_in_round next) rest
          (sym (pops claim i step current well_formed written next over refl refl) ∙ queue) in
      let leads : target ≡ status_at (head? rest) =
        next_status claim i step current well_formed written next over refl refl
        ∙ ap (λ xs. status_at (head? xs)) left in
      let (event, result, done) =
        record_decision_complete now claim ApprovalDecision.approved approver remarks i step found
          (subst (λ s. assert_transition claim.status s ≡ ok tt) (sym leads) allowed) in
      (
        next,
        event,
        result,
        done,
        left,
        leads,
        record_decision-IsWellFormed now claim claim.version ApprovalDecision.approved approver
            remarks next event result done well_formed,
      )

  -- From pending approval a claim may go to where any further step says.
  may_go_on :
      (next : ApprovalStep) (rest : List ApprovalStep)
      → assert_transition ClaimStatus.pending_approval (status_at (head? (next ∷ rest))) ≡ ok tt
  unfolding assert_transition
  may_go_on next rest = elim (Bool-cases (is_finance next.role)) [
    | inl a ↦ rw a refl
    | inr a ↦ rw a refl
  ]

  front_of :
      (business : List ApprovalStep) (finance : ApprovalStep)
      → (s : ApprovalStep) × (more : List ApprovalStep) × (business ++ finance ∷ [] ≡ s ∷ more)
  front_of [] finance = (finance, [], refl)
  front_of (b ∷ business) finance = (b, business ++ finance ∷ [], refl)

  may_verify : assert_transition ClaimStatus.pending_finance ClaimStatus.verified ≡ ok tt
  unfolding assert_transition
  may_verify = refl

  -- A well-formed claim whose queue is a row of steps that are not Finance's with a Finance step
  -- behind them, and whose status is the one that its front step stands for, is verified by as many
  -- approvals as there are steps, each made on the version then present.
  pub approvals_verify :
      (business : List ApprovalStep) (finance : ApprovalStep) (claim : SettlementClaim)
      → IsWellFormed claim
      → pending_in_round claim ≡ business ++ finance ∷ []
      → All (λ s. is_finance s.role ≡ false) business
      → is_finance finance.role ≡ true
      → claim.status ≡ status_at (head? (business ++ finance ∷ []))
      → (after : SettlementClaim) × ApprovalRun (length (business ++ finance ∷ [])) claim after
        × (after.status ≡ ClaimStatus.verified)
        × (pending_in_round after ≡ [])
  approvals_verify [] finance claim well_formed queue plain last status =
      let stands : claim.status ≡ ClaimStatus.pending_finance = status ∙ rw last refl in
      let (next, event, result, done, left, leads, _) =
        approve_front claim finance [] well_formed queue
          (subst (λ s. assert_transition s ClaimStatus.verified ≡ ok tt) (sym stands) may_verify) in
      (
        next,
        approved now claim next next 0 approver remarks event result done (no_more next),
        leads,
        left,
      )
  approvals_verify (b ∷ business) finance claim well_formed queue plain last status =
      let first : is_finance b.role ≡ false = plain.0 in
      let stands : claim.status ≡ ClaimStatus.pending_approval = status ∙ rw first refl in
      let rest = business ++ finance ∷ [] in
      let (s, more, shape) = front_of business finance in
      let allowed =
        subst (λ xs. assert_transition claim.status (status_at (head? xs)) ≡ ok tt) (sym shape)
          (subst (λ t. assert_transition t (status_at (head? (s ∷ more))) ≡ ok tt) (sym stands)
            (may_go_on s more)) in
      let (next, event, result, done, left, leads, kept) =
        approve_front claim b rest well_formed queue allowed in
      let (after, steps, verified, over) =
        approvals_verify business finance next kept left plain.1 last leads in
      (
        after,
        approved now claim next after (length rest) approver remarks event result done steps,
        verified,
        over,
      )
