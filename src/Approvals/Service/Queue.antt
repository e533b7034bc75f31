-- ===== src/Approvals/Service/Queue.antt =====
-- The pending steps of a round as a queue: what a decision of approvals/service.py takes off it.
use expense_reimbursement_ta.Prelude.{
  ℕ, zero, suc, ◌+◌, ◌≤◌, ◌<◌, ◌≡◌, ◌≢◌, refl, ap, ◌∙◌, true, false, not, ◌&&◌, Option, none, some,
  List, [], ◌∷◌, ◌++◌, arith, filter, get_elem?, set, All, ltb, ◌==◌, if◌then◌else◌, Bool-cases,
  inl, inr,
}
use expense_reimbursement_ta.Prelude.Sort.{filter-sorted, sorted, sorted-least}
use expense_reimbursement_ta.Models.{ClaimStatus, is_finance}
use expense_reimbursement_ta.Claims.Rows.{ApprovalStep, SettlementClaim}
use expense_reimbursement_ta.Claims.Serialisers.{current_round_steps, in_round, pending_in_round}
use expense_reimbursement_ta.Claims.Serialisers.Front.{earliest-before, least_placed, number, waits}
use expense_reimbursement_ta.Approvals.Service.{Placed, awaits, pending_steps, status_of_remaining}

filter-filter :
    (round : ℕ) (steps : List ApprovalStep)
    → filter waits (filter (in_round round) steps) ≡ filter (awaits round) steps
unfolding in_round awaits
filter-filter round [] = refl
filter-filter round (s ∷ rest) =
    let more = filter-filter round rest in
    elim (Bool-cases (not s.superseded && s.submission_round == round)) [
      | inl a ↦ elim (Bool-cases (waits s)) [
        | inl b ↦ rw (a, b, more) refl
        | inr b ↦ rw (a, b, more) refl
      ]
      | inr a ↦ rw (a, more) refl
    ]

-- The queue of a claim's round: its awaiting steps, by sequence.
pub pending_in_round-sorted :
    (claim : SettlementClaim)
    → pending_in_round claim
      ≡ sorted number (filter (awaits (claim.return_count + 1)) claim.approval_steps)
unfolding pending_in_round current_round_steps
pending_in_round-sorted claim =
    filter-sorted number waits (filter (in_round (claim.return_count + 1)) claim.approval_steps)
    ∙ ap (sorted number) (filter-filter (claim.return_count + 1) claim.approval_steps)

-- What holds of the awaiting steps of a list holds of those that the filter keeps.
filter-All :
    (P : ApprovalStep → Type 0) (round : ℕ) (steps : List ApprovalStep)
    → ((k : ℕ) (s : ApprovalStep) → get_elem? steps k ≡ some s → awaits round s ≡ true → P s)
    → All P (filter (awaits round) steps)
filter-All P round [] h = tt
filter-All P round (s ∷ rest) h =
    let more = filter-All P round rest (λ k. h (suc k)) in
    elim (Bool-cases (awaits round s)) [ inl a ↦ rw a (h 0 s refl a, more) | inr a ↦ rw a more ]

-- No step of a round awaits a decision: the queue is empty.
pub filter_nothing :
    (round : ℕ) (steps : List ApprovalStep)
    → ((k : ℕ) (s : ApprovalStep) → get_elem? steps k ≡ some s → awaits round s ≡ false)
    → filter (awaits round) steps ≡ []
filter_nothing round [] h = refl
filter_nothing round (s ∷ rest) h =
    let over = h 0 s refl in rw over (filter_nothing round rest (λ k. h (suc k)))

module _ (round : ℕ) (step written : ApprovalStep) (live : awaits round step ≡ true)
    (over : awaits round written ≡ false) where
  -- Every other awaiting step comes behind the step at a place.
  abbrev pub IsAhead : ℕ → List ApprovalStep → Type 0
  IsAhead i steps =
      (k : ℕ) (other : ApprovalStep)
      → get_elem? steps k ≡ some other
      → awaits round other ≡ true
      → k ≢ i
      → step.sequence < other.sequence

  abbrev IsSplit : ℕ → List ApprovalStep → Type 0
  IsSplit i steps =
      (front : List ApprovalStep) × (back : List ApprovalStep) × (filter (awaits round) steps
        ≡ front ++ step ∷ back)
      × (filter (awaits round) (set steps i written) ≡ front ++ back)
      × All (λ s. suc step.sequence ≤ s.sequence) front
      × All (λ s. step.sequence ≤ s.sequence) back

  split :
      (i : ℕ) (steps : List ApprovalStep)
      → get_elem? steps i ≡ some step
      → IsAhead i steps
      → IsSplit i steps
  split i [] e h = cc
  split zero (s ∷ rest) e h =
      let same : s ≡ step = cc in
      let here : awaits round s ≡ true = rw same live in
      let later : All (λ t. step.sequence ≤ t.sequence) (filter (awaits round) rest) =
        filter-All (λ t. step.sequence ≤ t.sequence) round rest
          (λ k t at_k waiting.
            let less = h (suc k) t at_k waiting (λ q. omega (arith, q)) in omega (arith, less)) in
      (
        [],
        filter (awaits round) rest,
        rw here (ap (λ x. x ∷ filter (awaits round) rest) same),
        rw over refl,
        tt,
        later,
      )
  split (suc i) (s ∷ rest) e h =
      let (front, back, whole, left, ahead, behind) =
        split i rest e (λ k t at_k waiting differs.
          h (suc k) t at_k waiting (λ q. differs (omega (arith, q)))) in
      elim (Bool-cases (awaits round s)) [
        | inl a ↦ (
          s ∷ front,
          back,
          rw a (ap (λ xs. s ∷ xs) whole),
          rw a (ap (λ xs. s ∷ xs) left),
          (h 0 s refl a (λ q. omega (arith, q)), ahead),
          behind,
        )
        | inr a ↦ (front, back, rw a whole, rw a left, ahead, behind)
      ]

  -- Writing to the step ahead takes it off the queue, and leaves the rest as it is.
  pub sorted-pops :
      (i : ℕ) (steps : List ApprovalStep)
      → get_elem? steps i ≡ some step
      → IsAhead i steps
      → sorted number (filter (awaits round) steps)
        ≡ step ∷ sorted number (filter (awaits round) (set steps i written))
  sorted-pops i steps e h =
      let (front, back, whole, left, ahead, behind) = split i steps e h in
      rw (whole, left) (sorted-least number step front back ahead behind)

  kept_behind :
      (j : ℕ) (steps : List ApprovalStep)
      → ((k : ℕ) (other : ApprovalStep)
          → get_elem? steps k ≡ some other
          → awaits round other ≡ true
          → step.sequence < other.sequence)
      → filter (λ other. ltb step.sequence other.1.sequence) (pending_steps round j steps)
        ≡ pending_steps round j steps
  unfolding pending_steps
  kept_behind j [] h = refl
  kept_behind j (s ∷ rest) h =
      let more = kept_behind (suc j) rest (λ k. h (suc k)) in
      elim (Bool-cases (awaits round s)) [
        | inl a ↦
            let less = h 0 s refl a in
            let behind : ltb step.sequence s.sequence ≡ true = ground (arith, less) in
            rw (a, behind, more) refl
        | inr a ↦ rw (a, more) refl
      ]

  -- What a decision on the step ahead leaves are the steps that wait when it is written.
  pub remaining-pending_steps :
      (j i : ℕ) (steps : List ApprovalStep)
      → get_elem? steps i ≡ some step
      → IsAhead i steps
      → filter (λ other. ltb step.sequence other.1.sequence) (pending_steps round j steps)
        ≡ pending_steps round j (set steps i written)
  unfolding pending_steps
  remaining-pending_steps j i [] e h = cc
  remaining-pending_steps j zero (s ∷ rest) e h =
      let same : s ≡ step = cc in
      let here : awaits round s ≡ true = rw same live in
      let own : ltb step.sequence s.sequence ≡ false = rw same (ground arith) in
      let more =
        kept_behind (suc j) rest
          (λ k t at_k waiting. h (suc k) t at_k waiting (λ q. omega (arith, q))) in
      rw (here, own, over) more
  remaining-pending_steps j (suc i) (s ∷ rest) e h =
      let more =
        remaining-pending_steps (suc j) i rest e (λ k t at_k waiting differs.
          h (suc k) t at_k waiting (λ q. differs (omega (arith, q)))) in
      elim (Bool-cases (awaits round s)) [
        | inl a ↦
            let less = h 0 s refl a (λ q. omega (arith, q)) in
            let behind : ltb step.sequence s.sequence ≡ true = ground (arith, less) in
            rw (a, behind, more) refl
        | inr a ↦ rw (a, more) refl
      ]

-- Where a claim goes with a step at the front of its queue, or none.
abbrev pub status_at : Option ApprovalStep → ClaimStatus
status_at none = ClaimStatus.verified
status_at (some step) =
    if is_finance step.role then ClaimStatus.pending_finance else ClaimStatus.pending_approval

pub status_of_remaining-status_at :
    (left : List Placed) → status_of_remaining left ≡ status_at (least_placed left)
unfolding status_of_remaining
status_of_remaining-status_at [] = refl
status_of_remaining-status_at (p ∷ rest) = rw (earliest-before p rest) refl
