-- ===== src/Claims/Serialisers/Front.antt =====
-- The step at the front of the round (claims/serialisers.py) is the one that a decision falls on
-- (`_current_step` of approvals/service.py).
use expense_reimbursement_ta.Prelude.{
  ℕ, suc, ◌+◌, ◌≡◌, refl, ◌∙◌, Bool, not, ◌&&◌, Option, none, some, List, [], ◌∷◌, filter, find,
  ltb, arith, Bool-cases, inl, inr, if◌then◌else◌, ◌==◌, head?,
}
use expense_reimbursement_ta.Prelude.Result.{Result, ok, err}
use expense_reimbursement_ta.Prelude.Sort.{before, least, find-sorted}
use expense_reimbursement_ta.Models.{is_pending}
use expense_reimbursement_ta.Claims.Rows.{ApprovalStep, SettlementClaim}
use expense_reimbursement_ta.Approvals.Service.{
  DecisionError, Placed, awaits, current_step, earliest, first_of, pending_steps,
}
use expense_reimbursement_ta.Claims.Serialisers.{
  in_round, current_round_steps, pending_in_round, front,
}

abbrev pub number : ApprovalStep → ℕ
number step = step.sequence

abbrev pub waits : ApprovalStep → Bool
waits step = is_pending step.decision

-- The step alone, without its place.
abbrev pub step_of : Result DecisionError Placed → Option ApprovalStep
step_of (ok placed) = some placed.1
step_of (err _) = none

-- The first of the least placed steps, from the right.
abbrev pub least_placed : List Placed → Option ApprovalStep
least_placed [] = none
least_placed (p ∷ rest) = some (before number p.1 (least_placed rest))

before_assoc :
    (p q : Placed) (o : Option ApprovalStep)
    → before number (if ltb q.1.sequence p.1.sequence then q else p).1 o
      ≡ before number p.1 (some (before number q.1 o))
before_assoc p q none = elim (Bool-cases (ltb q.1.sequence p.1.sequence)) [
  | inl a ↦ rw a (ground (arith, a))
  | inr a ↦ rw a (ground (arith, a))
]
before_assoc p q (some r) = elim (Bool-cases (ltb q.1.sequence p.1.sequence)) [
  | inl a ↦ rw a (ground (arith, a))
  | inr a ↦ rw a (ground (arith, a))
]

pub earliest-before :
    (p : Placed) (rest : List Placed) → (earliest p rest).1 ≡ before number p.1 (least_placed rest)
unfolding earliest
earliest-before p [] = refl
earliest-before p (q ∷ rest) =
    rw
      (
        earliest-before (if ltb q.1.sequence p.1.sequence then q else p) rest,
        before_assoc p q (least_placed rest),
      )
      refl

pub first_of-least : (pending : List Placed) → step_of (first_of pending) ≡ least_placed pending
unfolding first_of
first_of-least [] = refl
first_of-least (p ∷ rest) = rw (earliest-before p rest) refl

pending_steps-least :
    (round i : ℕ) (steps : List ApprovalStep)
    → least_placed (pending_steps round i steps)
      ≡ least number waits (filter (in_round round) steps)
unfolding pending_steps awaits in_round
pending_steps-least round i [] = refl
pending_steps-least round i (s ∷ rest) =
    let more = pending_steps-least round (suc i) rest in
    elim (Bool-cases (not s.superseded && s.submission_round == round)) [
      | inl a ↦ elim (Bool-cases (waits s)) [
        | inl b ↦ rw (a, b, more) refl
        | inr b ↦ rw (a, b, more) refl
      ]
      | inr a ↦ rw (a, more) refl
    ]

head?-filter : (p : ApprovalStep → Bool) (xs : List ApprovalStep) → head? (filter p xs) ≡ find p xs
head?-filter p [] = refl
head?-filter p (x ∷ xs) = elim (Bool-cases (p x)) [
  | inl a ↦ rw a refl
  | inr a ↦ rw a (head?-filter p xs)
]

-- The step that the routers show at the front of a claim's round is the one that a decision falls
-- on, and none is shown exactly when a decision finds none.
pub current_step-front : (claim : SettlementClaim) → step_of (current_step claim) ≡ front claim
unfolding current_step front pending_in_round current_round_steps
current_step-front claim =
    let round = claim.return_count + 1 in
    let live = filter (in_round round) claim.approval_steps in
    rw
      (
        first_of-least (pending_steps round 0 claim.approval_steps),
        pending_steps-least round 0 claim.approval_steps,
        head?-filter waits (current_round_steps claim),
        find-sorted number waits live,
      )
      refl

step_of_inv :
    (r : Result DecisionError Placed) (step : ApprovalStep)
    → step_of r ≡ some step
    → (i : ℕ) × (r ≡ ok (i, step))
step_of_inv (ok (i, s)) step e = let same : s ≡ step = cc in (i, rw same refl)
step_of_inv (err x) step e = cc

-- The step at the front has a place among the claim's steps.
pub front_current :
    (claim : SettlementClaim) (step : ApprovalStep)
    → front claim ≡ some step
    → (i : ℕ) × (current_step claim ≡ ok (i, step))
front_current claim step e = step_of_inv (current_step claim) step (current_step-front claim ∙ e)
