-- ===== src/Approvals/Service/Decisions.antt =====
-- The step that a decision falls on (`_current_step` of approvals/service.py).
use expense_reimbursement_ta.Prelude.{
  ℕ, zero, suc, ◌+◌, ◌≤◌, ◌≡◌, refl, subst, true, false, some, List, [], ◌∷◌, arith, if◌then◌else◌,
  ltb, Bool-cases, inl, inr, get_elem?, All, All-imp,
}
use expense_reimbursement_ta.Prelude.Result.{ok, err, ok_inj}
use expense_reimbursement_ta.Claims.Rows.{ApprovalStep, SettlementClaim}
use expense_reimbursement_ta.Approvals.Service.{
  Placed, DecisionError, awaits, pending_steps, earliest, first_of, current_step,
}

-- A placed step stands at its place in the list, whose first place is `i`, and awaits a decision.
abbrev IsPlaced : ℕ → ℕ → List ApprovalStep → Placed → Type 0
IsPlaced round i steps q =
    (k : ℕ) × (q.0 ≡ i + k) × (get_elem? steps k ≡ some q.1) × (awaits round q.1 ≡ true)

pending_steps-IsPlaced :
    (round i : ℕ) (steps : List ApprovalStep)
    → All (IsPlaced round i steps) (pending_steps round i steps)
unfolding pending_steps
pending_steps-IsPlaced round i [] = tt
pending_steps-IsPlaced round i (s ∷ rest) =
    let more : All (IsPlaced round i (s ∷ rest)) (pending_steps round (suc i) rest) =
      All-imp (pending_steps round (suc i) rest)
        (λ q h. let (k, place, found, live) = h in (suc k, omega arith, found, live))
        (pending_steps-IsPlaced round (suc i) rest) in
    elim (Bool-cases (awaits round s)) [
      | inl a ↦ rw a ((0, omega arith, refl, a), more)
      | inr a ↦ rw a more
    ]

-- What holds of all the pending steps holds of each step that awaits a decision.
pub pending_steps-complete :
    (P : Placed → Type 0) (round i k : ℕ) (steps : List ApprovalStep) (s : ApprovalStep)
    → All P (pending_steps round i steps)
    → get_elem? steps k ≡ some s
    → awaits round s ≡ true
    → P (i + k, s)
unfolding pending_steps
pending_steps-complete P round i k [] s h e live = cc
pending_steps-complete P round i zero (t ∷ rest) s h e live =
    let same : t ≡ s = cc in
    let first : All P ((i, t) ∷ pending_steps round (suc i) rest) =
      let y : awaits round t ≡ true = rw same live in let x = rw y at h in x in
    let place : i + 0 ≡ i = omega arith in rw (place, ← same) first.0
pending_steps-complete P round i (suc k) (t ∷ rest) s h e live =
    let place : i + suc k ≡ suc i + k = omega arith in
    let more : All P (pending_steps round (suc i) rest) = elim (Bool-cases (awaits round t)) [
      | inl a ↦ let x = rw a at h in x.1
      | inr a ↦ rw a at h
    ] in
    rw place (pending_steps-complete P round (suc i) k rest s more e live)

least_of_two :
    (p q : Placed)
    → ((if ltb q.1.sequence p.1.sequence then q else p).1.sequence ≤ p.1.sequence)
      × ((if ltb q.1.sequence p.1.sequence then q else p).1.sequence ≤ q.1.sequence)
least_of_two p q = elim (Bool-cases (ltb q.1.sequence p.1.sequence)) [
  | inl a ↦ rw a (ground arith, omega arith)
  | inr a ↦ rw a (omega arith, ground arith)
]

-- The earliest is one of the steps, and no step has a lesser sequence.
earliest_lem :
    (P : Placed → Type 0) (p : Placed) (rest : List Placed)
    → P p
    → All P rest
    → P (earliest p rest)
      × ((earliest p rest).1.sequence ≤ p.1.sequence)
      × All (λ q. (earliest p rest).1.sequence ≤ q.1.sequence) rest
unfolding earliest
earliest_lem P p [] h more = (h, omega arith, tt)
earliest_lem P p (q ∷ rest) h more =
    let both : P (if ltb q.1.sequence p.1.sequence then q else p) =
      elim (Bool-cases (ltb q.1.sequence p.1.sequence)) [ inl a ↦ rw a more.0 | inr a ↦ rw a h ] in
    let (holds, low, all) =
      earliest_lem P (if ltb q.1.sequence p.1.sequence then q else p) rest both more.1 in
    let (low_p, low_q) = least_of_two p q in
    (holds, omega (arith, low, low_p), (omega (arith, low, low_q), all))

first_of_lem :
    (P : Placed → Type 0) (pending : List Placed) (q : Placed)
    → All P pending
    → first_of pending ≡ ok q
    → P q × All (λ r. q.1.sequence ≤ r.1.sequence) pending
unfolding first_of
first_of_lem P [] q h e = cc
first_of_lem P (p ∷ rest) q h e =
    let same : earliest p rest ≡ q = ok_inj e in
    let (holds, low, all) = earliest_lem P p rest h.0 h.1 in
    subst (λ x. P x × All (λ r. x.1.sequence ≤ r.1.sequence) (p ∷ rest)) same (holds, (low, all))

first_of_none :
    (pending : List Placed) (e : DecisionError) → first_of pending ≡ err e → All (λ _. ⊥) pending
unfolding first_of
first_of_none [] e h = tt
first_of_none (p ∷ rest) e h = cc

-- The step at place `i` awaits a decision in the claim's round, and no other one that does has a
-- lesser sequence.
abbrev pub IsCurrent : SettlementClaim → ℕ → ApprovalStep → Type 0
IsCurrent claim i step =
    (get_elem? claim.approval_steps i ≡ some step)
    × (awaits (claim.return_count + 1) step ≡ true)
    × ((k : ℕ) (other : ApprovalStep)
        → get_elem? claim.approval_steps k ≡ some other
        → awaits (claim.return_count + 1) other ≡ true
        → step.sequence ≤ other.sequence)

-- No step awaits a decision in the claim's round.
abbrev pub IsDecided : SettlementClaim → Type 0
IsDecided claim =
    (k : ℕ) (step : ApprovalStep)
    → get_elem? claim.approval_steps k ≡ some step
    → awaits (claim.return_count + 1) step ≡ false

module _ (claim : SettlementClaim) where
  abbrev round : ℕ
  round = claim.return_count + 1

  abbrev steps : List ApprovalStep
  steps = claim.approval_steps

  pub current_step-IsCurrent :
      (i : ℕ) (step : ApprovalStep) → current_step claim ≡ ok (i, step) → IsCurrent claim i step
  unfolding current_step
  current_step-IsCurrent i step e =
      let (found, least) =
        first_of_lem (IsPlaced round 0 steps) (pending_steps round 0 steps) (i, step)
          (pending_steps-IsPlaced round 0 steps) e in
      let (k, place, stands, live) = found in
      let same : i ≡ k = omega arith in
      (
        rw same stands,
        live,
        λ j other at_j awaiting.
            pending_steps-complete (λ q. step.sequence ≤ q.1.sequence) round 0 j steps other least
              at_j awaiting,
      )

  pub current_step-IsDecided : (e : DecisionError) → current_step claim ≡ err e → IsDecided claim
  unfolding current_step
  current_step-IsDecided e none_left k step at_k = elim (Bool-cases (awaits round step)) [
    | inl a ↦ absurd (
        pending_steps-complete (λ _. ⊥) round 0 k steps step
          (first_of_none (pending_steps round 0 steps) e none_left) at_k a)
    | inr a ↦ a
  ]
