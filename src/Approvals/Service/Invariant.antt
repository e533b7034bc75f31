-- ===== src/Approvals/Service/Invariant.antt =====
-- The invariant of a claim's steps under `record_decision` (approvals/service.py).
use expense_reimbursement_ta.Prelude.{
  ℕ, ◌+◌, ◌≤◌, ◌≡◌, refl, sym, ap, subst, ◌∙◌, false, Option, some, List, [], ◌∷◌, map, arith,
  if◌then◌else◌, Bool-cases, inl, inr, get_elem?, get_elem?-set, get_elem?-map, set, All, All-imp,
  All-map, All-set, All-get_elem?,
}
use expense_reimbursement_ta.Prelude.Result.{ok}
use expense_reimbursement_ta.Models.{
  DateTime, ApprovalDecision, ClaimStatus, is_finance, claim_draft,
}
use expense_reimbursement_ta.Claims.Rows.{ApprovalStep, SettlementClaim, Remark}
use expense_reimbursement_ta.Approvals.Service.{
  is_returned, Placed, DecisionResult, DecisionEvent, target_status, remaining, status_of_remaining,
  decided_step, decided_claim, supersede, record_decision, earliest,
}
use expense_reimbursement_ta.Approvals.Service.Outcomes.{record_decision_sound}
use expense_reimbursement_ta.Approvals.Service.Rounds.{IsNumbered}

-- The last round that has begun: a draft is between two rounds.
abbrev pub last_round : SettlementClaim → ℕ
last_round claim = if claim_draft claim.status then claim.return_count else claim.return_count + 1

-- No step belongs to a round that has not begun, and the steps of a round are numbered apart.
abbrev pub IsWellFormed : SettlementClaim → Type 0
IsWellFormed claim =
    All (λ s. s.submission_round ≤ last_round claim) claim.approval_steps
    × IsNumbered claim.approval_steps

-- A list whose steps have the rounds and the sequences of another's at the same places.
abbrev HasKeysOf : List ApprovalStep → List ApprovalStep → Type 0
HasKeysOf old new =
    (k : ℕ) (s : ApprovalStep)
    → get_elem? new k ≡ some s
    → (t : ApprovalStep) × (get_elem? old k ≡ some t)
      × (t.submission_round ≡ s.submission_round)
      × (t.sequence ≡ s.sequence)

keys-IsNumbered :
    (old new : List ApprovalStep) → HasKeysOf old new → IsNumbered old → IsNumbered new
keys-IsNumbered old new keys numbered i k s t at_i at_k same_round same_number =
    let (s0, found_s, round_s, number_s) = keys i s at_i in
    let (t0, found_t, round_t, number_t) = keys k t at_k in
    numbered i k s0 t0 found_s found_t (round_s ∙ same_round ∙ sym round_t)
      (number_s ∙ same_number ∙ sym number_t)

set-HasKeysOf :
    (steps : List ApprovalStep) (i : ℕ) (old new : ApprovalStep)
    → get_elem? steps i ≡ some old
    → old.submission_round ≡ new.submission_round
    → old.sequence ≡ new.sequence
    → HasKeysOf steps (set steps i new)
set-HasKeysOf steps i old new found rounds numbers k s e = elim (get_elem?-set steps i k new s e) [
  | inl (place, here) ↦ (
    old,
    rw place found,
    rounds ∙ ap (λ x. x.submission_round) here,
    numbers ∙ ap (λ x. x.sequence) here,
  )
  | inr (_, there) ↦ (s, there, refl, refl)
]

supersede-HasKeysOf :
    (n : ℕ) (steps : List ApprovalStep) → HasKeysOf steps (map (supersede n) steps)
unfolding supersede
supersede-HasKeysOf n steps k s e =
    let (t, found, same) = get_elem?-map (supersede n) steps k s e in
    (t, found, ap (λ x. x.submission_round) same, ap (λ x. x.sequence) same)

not_draft : (left : List Placed) → claim_draft (status_of_remaining left) ≡ false
unfolding status_of_remaining
not_draft [] = refl
not_draft (p ∷ rest) = elim (Bool-cases (is_finance (earliest p rest).1.role)) [
  | inl a ↦ rw a refl
  | inr a ↦ rw a refl
]

pub last_round_le : (claim : SettlementClaim) → last_round claim ≤ claim.return_count + 1
last_round_le claim = ground arith

module _ (now : DateTime) (claim : SettlementClaim) (approver : Option ℕ) (remarks : Option Remark)
    (well_formed : IsWellFormed claim) (i : ℕ) (step : ApprovalStep)
    (found : get_elem? claim.approval_steps i ≡ some step) where
  abbrev Within : ApprovalStep → Type 0
  Within s = s.submission_round ≤ claim.return_count + 1

  module _ (decision : ApprovalDecision) where
    abbrev written : ApprovalStep
    written = decided_step now decision approver remarks step

    written-Within : All Within (set claim.approval_steps i written)
    unfolding decided_step
    written-Within =
        let early : All Within claim.approval_steps =
          All-imp claim.approval_steps (λ s h. omega (arith, last_round_le claim)) well_formed.0 in
        All-set Within claim.approval_steps i written early
          (All-get_elem? Within claim.approval_steps i step early found)

    written-HasKeysOf : HasKeysOf claim.approval_steps (set claim.approval_steps i written)
    unfolding decided_step
    written-HasKeysOf = set-HasKeysOf claim.approval_steps i step written found refl refl

  kept-IsWellFormed :
      (target : ClaimStatus) (decision : ApprovalDecision)
      → claim_draft target ≡ false
      → is_returned decision ≡ false
      → IsWellFormed (decided_claim claim decision target i (written decision))
  unfolding decided_claim
  kept-IsWellFormed target decision begun kept =
      rw (begun, kept)
        (
          written-Within decision,
          keys-IsNumbered claim.approval_steps (set claim.approval_steps i (written decision))
              (written-HasKeysOf decision) well_formed.1,
        )

  decided-IsWellFormed :
      (decision : ApprovalDecision)
      → IsWellFormed
          (decided_claim claim decision (target_status claim step decision) i (written decision))
  unfolding decided_claim target_status
  decided-IsWellFormed ApprovalDecision.pending =
      kept-IsWellFormed _ ApprovalDecision.pending (not_draft (remaining claim step)) refl
  decided-IsWellFormed ApprovalDecision.approved =
      kept-IsWellFormed _ ApprovalDecision.approved (not_draft (remaining claim step)) refl
  decided-IsWellFormed ApprovalDecision.rejected =
      kept-IsWellFormed ClaimStatus.rejected ApprovalDecision.rejected refl refl
  decided-IsWellFormed ApprovalDecision.returned =
      let steps = set claim.approval_steps i (written ApprovalDecision.returned) in
      (
        All-map Within (supersede (claim.return_count + 1)) steps
            (written-Within ApprovalDecision.returned),
        keys-IsNumbered steps (map (supersede (claim.return_count + 1)) steps)
            (supersede-HasKeysOf (claim.return_count + 1) steps)
            (keys-IsNumbered claim.approval_steps steps
              (written-HasKeysOf ApprovalDecision.returned) well_formed.1),
      )

pub record_decision-IsWellFormed :
    (now : DateTime) (claim : SettlementClaim) (expected : ℕ) (decision : ApprovalDecision)
    (approver : Option ℕ) (remarks : Option Remark) (after : SettlementClaim)
    (event : DecisionEvent) (result : DecisionResult)
    → record_decision now claim expected decision approver remarks ≡ ok (after, event, result)
    → IsWellFormed claim
    → IsWellFormed after
record_decision-IsWellFormed now claim expected decision approver remarks after event result done
      h =
    let (_, i, step, current, _, same, _, _, _, _, _) =
      record_decision_sound now claim expected decision approver remarks after event result done in
    subst IsWellFormed (sym same)
      (decided-IsWellFormed now claim approver remarks h i step current.0 decision)
