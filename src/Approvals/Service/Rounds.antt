-- ===== src/Approvals/Service/Rounds.antt =====
-- Rounds of approval: what a return and a verification leave of a round's steps
-- (approvals/service.py).
use expense_reimbursement_ta.Prelude.{
  ℕ, ◌+◌, ◌≤◌, ◌≡◌, refl, sym, ap, ◌∙◌, true, false, ◌==◌, ==_iff, Option, some, List, [], ◌∷◌, map,
  arith, ltb, Bool-cases, inl, inr, get_elem?, get_elem?-set, set, All, All-imp, All-map, All-set,
  All-get_elem?, filter,
}
use expense_reimbursement_ta.Prelude.Result.{ok}
use expense_reimbursement_ta.Models.{
  DateTime, ApprovalDecision, ClaimStatus, is_pending, is_finance,
}
use expense_reimbursement_ta.Claims.Rows.{ApprovalStep, SettlementClaim, Remark}
use expense_reimbursement_ta.Approvals.Service.{
  Placed, DecisionResult, DecisionEvent, awaits, pending_steps, target_status, remaining,
  status_of_remaining, decided_step, decided_claim, supersede, record_decision, earliest,
}
use expense_reimbursement_ta.Approvals.Service.Decisions.{IsDecided, pending_steps-complete}
use expense_reimbursement_ta.Approvals.Service.Outcomes.{record_decision_sound}

-- No step belongs to a round that has not begun.
abbrev pub IsRounded : SettlementClaim → Type 0
IsRounded claim = All (λ s. s.submission_round ≤ claim.return_count + 1) claim.approval_steps

-- The sequence numbers of a round are distinct: the table's `uq_approval_step_round_sequence`.
abbrev pub IsNumbered : List ApprovalStep → Type 0
IsNumbered steps =
    (i k : ℕ) (s t : ApprovalStep)
    → get_elem? steps i ≡ some s
    → get_elem? steps k ≡ some t
    → s.submission_round ≡ t.submission_round
    → s.sequence ≡ t.sequence
    → i ≡ k

-- A step that awaits a decision in a round belongs to it, and is pending.
pub awaits_parts :
    (round : ℕ) (s : ApprovalStep)
    → awaits round s ≡ true
    → (s.submission_round ≡ round) × (is_pending s.decision ≡ true)
unfolding awaits
awaits_parts round s h = elim (Bool-cases s.superseded) [
  | inl a ↦ let x = rw a at h in cc
  | inr a ↦ elim (Bool-cases (s.submission_round == round)) [
    | inl b ↦ let x = rw (a, b) at h in ((==_iff s.submission_round round).0 b, x)
    | inr b ↦ let x = rw (a, b) at h in cc
  ]
]

-- A step that an approval has been written to awaits no further one.
module _ (now : DateTime) (approver : Option ℕ) (remarks : Option Remark) where
  pub decided_step-IsDecided :
      (round : ℕ) (step : ApprovalStep)
      → awaits round (decided_step now ApprovalDecision.approved approver remarks step) ≡ false
  unfolding awaits decided_step
  decided_step-IsDecided round step = ground arith

early-IsDecided :
    (round : ℕ) (s : ApprovalStep) → s.submission_round ≤ round → awaits (round + 1) s ≡ false
early-IsDecided round s h = elim (Bool-cases (awaits (round + 1) s)) [
  | inl a ↦ let (same, _) = awaits_parts (round + 1) s a in absurd (omega arith)
  | inr a ↦ a
]

filter_none :
    (n : ℕ) (pending : List Placed)
    → filter (λ other. ltb n other.1.sequence) pending ≡ []
    → All (λ other. other.1.sequence ≤ n) pending
filter_none n [] e = tt
filter_none n (q ∷ rest) e = elim (Bool-cases (ltb n q.1.sequence)) [
  | inl a ↦ let x = rw a at e in cc
  | inr a ↦ (ground arith, filter_none n rest (rw a at e))
]

no_more : (left : List Placed) → status_of_remaining left ≡ ClaimStatus.verified → left ≡ []
unfolding status_of_remaining
no_more [] e = refl
no_more (p ∷ rest) e = elim (Bool-cases (is_finance (earliest p rest).1.role)) [
  | inl a ↦ let x = rw a at e in cc
  | inr a ↦ let x = rw a at e in cc
]

module _ (now : DateTime) (claim : SettlementClaim) (expected : ℕ) (approver : Option ℕ)
    (remarks : Option Remark) (after : SettlementClaim) (event : DecisionEvent)
    (result : DecisionResult) where
  -- On a claim without steps of a round that has not begun, a return that is recorded puts the
  -- claim back to draft and opens the next round: the round counter goes up,
  -- every step of the round that ends is superseded, no step is left that awaits a decision, and
  -- no step belongs to a later round.
  pub return_starts_over :
      IsRounded claim
      → record_decision now claim expected ApprovalDecision.returned approver remarks
        ≡ ok (after, event, result)
      → (after.status ≡ ClaimStatus.draft)
        × (after.return_count ≡ claim.return_count + 1)
        × All
            (λ s. s.submission_round ≡ claim.return_count + 1 → s.superseded ≡ true)
            after.approval_steps
        × IsDecided after
        × IsRounded after
  unfolding decided_claim decided_step supersede target_status
  return_starts_over rounded done =
      let (_, i, step, current, _, same, _, _, _, _, _) =
        record_decision_sound now claim expected ApprovalDecision.returned approver remarks after
          event result done in
      let round = claim.return_count + 1 in
      let written = decided_step now ApprovalDecision.returned approver remarks step in
      let within = λ (s : ApprovalStep). s.submission_round ≤ round in
      let steps = set claim.approval_steps i written in
      let early : All within steps =
        All-set within claim.approval_steps i written rounded
          (All-get_elem? within claim.approval_steps i step rounded current.0) in
      let same_steps : after.approval_steps ≡ map (supersede round) steps =
        ap (λ c. c.approval_steps) same in
      let same_count : after.return_count ≡ claim.return_count + 1 =
        ap (λ c. c.return_count) same in
      let later : All within after.approval_steps =
        rw same_steps (All-map within (supersede round) steps early) in
      (
        ap (λ c. c.status) same,
        same_count,
        rw same_steps (
            All-map _ (supersede round) steps
              (All-imp steps (λ s h own. rw ((==_iff s.submission_round round).1 own) refl) early)),
        (λ k s at_k.
            rw same_count
              (early-IsDecided round s (All-get_elem? within after.approval_steps k s later at_k))),
        rw same_count (All-imp after.approval_steps (λ s h. omega arith) later),
      )

  -- An approval that verifies the claim leaves no step of its round that awaits a decision.
  pub verified-IsDecided :
      IsNumbered claim.approval_steps
      → record_decision now claim expected ApprovalDecision.approved approver remarks
        ≡ ok (after, event, result)
      → after.status ≡ ClaimStatus.verified
      → IsDecided after
  unfolding decided_claim target_status remaining
  verified-IsDecided numbered done verified =
      let (_, i, step, current, _, same, _, _, _, _, _) =
        record_decision_sound now claim expected ApprovalDecision.approved approver remarks after
          event result done in
      let round = claim.return_count + 1 in
      let written = decided_step now ApprovalDecision.approved approver remarks step in
      let target : status_of_remaining (remaining claim step) ≡ ClaimStatus.verified =
        sym (ap (λ c. c.status) same) ∙ verified in
      let last =
        filter_none step.sequence (pending_steps round 0 claim.approval_steps)
          (no_more (remaining claim step) target) in
      let same_steps : after.approval_steps ≡ set claim.approval_steps i written =
        ap (λ c. c.approval_steps) same in
      let same_count : after.return_count ≡ claim.return_count = ap (λ c. c.return_count) same in
      λ k s at_k. elim (get_elem?-set claim.approval_steps i k written s (rw same_steps at at_k)) [
        | inl (_, here) ↦
            rw (same_count, ← here) (decided_step-IsDecided now approver remarks round step)
        | inr (differs, old) ↦ elim (Bool-cases (awaits round s)) [
          | inr a ↦ rw same_count a
          | inl a ↦
              let upper =
                pending_steps-complete (λ q. q.1.sequence ≤ step.sequence) round 0 k
                  claim.approval_steps s last old a in
              let lower = current.2 k s old a in
              let (own, _) = awaits_parts round s a in
              let (mine, _) = awaits_parts round step current.1 in
              let place : k ≡ i =
                numbered k i s step old current.0 (own ∙ sym mine) (omega (arith, upper, lower)) in
              absurd (differs place)
        ]
      ]
