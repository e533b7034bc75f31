-- ===== src/Claims/Materialise/Rounds.antt =====
-- The round of approval that a submission opens (`submit` of claims/materialise.py).
use expense_reimbursement_ta.Prelude.{
  ℕ, zero, suc, ◌+◌, ◌≤◌, ◌≡◌, refl, sym, ap, subst, ◌∙◌, true, Option, none, some, List, [], ◌∷◌,
  ◌++◌, arith, Bool-cases, inl, inr, get_elem?, get_elem?-append, get_elem?-map, All, All-imp,
  All-append, All-get_elem?,
}
use expense_reimbursement_ta.Prelude.Result.{ok, ok_inj, bind_ok}
use expense_reimbursement_ta.Models.{DateTime, ClaimStatus, claim_draft}
use expense_reimbursement_ta.Claims.Rows.{ApprovalStep, SettlementClaim}
use expense_reimbursement_ta.Claims.Lifecycle.{check_can_submit}
use expense_reimbursement_ta.Claims.Materialise.{
  ClaimDraft, EmployeeIds, chain_row, write_chain, new_claim, open_claim, allowed_to, submitted,
  submit,
}
use expense_reimbursement_ta.Approvals.Routing.{ChainStep}
use expense_reimbursement_ta.Approvals.Routing.Chain.{Numbered}
use expense_reimbursement_ta.Approvals.Service.Rounds.{IsNumbered}
use expense_reimbursement_ta.Approvals.Service.Invariant.{IsWellFormed}

-- A submission that succeeds writes to a draft: the stored one, or a new claim.
pub submit_ok :
    (now : DateTime) (ids : EmployeeIds) (fresh : ℕ) (draft : ClaimDraft)
    (stored : Option SettlementClaim) (after : SettlementClaim)
    → submit now ids fresh draft stored ≡ ok after
    → ((check_can_submit draft.outcomes).can_submit ≡ true)
      × (claim : SettlementClaim) × (open_claim fresh draft.travel_request_id stored ≡ ok claim)
      × (after ≡ submitted now ids draft claim)
unfolding submit
submit_ok now ids fresh draft stored after e =
    elim (Bool-cases (check_can_submit draft.outcomes).can_submit) [
      | inr a ↦ let x = rw a at e in cc
      | inl a ↦
          let chain = rw a at e in
          let (claim, opened, chain2) =
            bind_ok (open_claim fresh draft.travel_request_id stored) _ after chain in
          let (_, _, chain3) =
            bind_ok (allowed_to claim.status ClaimStatus.pending_approval) _ after chain2 in
          (a, claim, opened, sym (ok_inj chain3))
    ]

open_claim_lem :
    (P : SettlementClaim → Type 0) (fresh trip : ℕ) (stored : Option SettlementClaim)
    (claim : SettlementClaim)
    → P (new_claim fresh trip)
    → ((c : SettlementClaim) → stored ≡ some c → P c)
    → open_claim fresh trip stored ≡ ok claim
    → P claim × (claim_draft claim.status ≡ true)
unfolding open_claim new_claim
open_claim_lem P fresh trip none claim first old e =
    let same : new_claim fresh trip ≡ claim = ok_inj e in
    subst (λ c. P c × (claim_draft c.status ≡ true)) same (first, refl)
open_claim_lem P fresh trip (some c) claim first old e = elim (Bool-cases (claim_draft c.status)) [
  | inl a ↦
      let same : c ≡ claim = ok_inj (rw a at e) in
      subst (λ x. P x × (claim_draft x.status ≡ true)) same (old c refl, a)
  | inr a ↦ let x = rw a at e in cc
]

Numbered-at :
    (n k : ℕ) (steps : List ChainStep) (s : ChainStep)
    → Numbered n steps
    → get_elem? steps k ≡ some s
    → s.sequence ≡ n + k
Numbered-at n k [] s h e = cc
Numbered-at n zero (t ∷ rest) s h e =
    let same : t ≡ s = cc in
    let number : s.sequence ≡ n = subst (λ x. x.sequence ≡ n) same h.0 in omega (arith, number)
Numbered-at n (suc k) (t ∷ rest) s h e =
    let more = Numbered-at (suc n) k rest s h.1 e in omega (arith, more)

module _ (now : DateTime) (ids : EmployeeIds) where
  row_at :
      (round k : ℕ) (chain : List ChainStep) (s : ApprovalStep)
      → Numbered 1 chain
      → get_elem? (write_chain now ids round chain) k ≡ some s
      → (s.sequence ≡ 1 + k) × (s.submission_round ≡ round)
  unfolding write_chain chain_row
  row_at round k chain s numbered e =
      let (step, found, same) = get_elem?-map (chain_row now ids round) chain k s e in
      let number = Numbered-at 1 k chain step numbered found in
      (sym (ap (λ x. x.sequence) same) ∙ number, sym (ap (λ x. x.submission_round) same))

  rows_early :
      (round : ℕ) (chain : List ChainStep)
      → All (λ s. s.submission_round ≤ round) (write_chain now ids round chain)
  unfolding write_chain chain_row
  rows_early round [] = tt
  rows_early round (s ∷ rest) = (omega arith, rows_early round rest)

  -- A round behind the ones that a list has.
  append-IsNumbered :
      (n : ℕ) (old : List ApprovalStep) (chain : List ChainStep)
      → All (λ s. s.submission_round ≤ n) old
      → IsNumbered old
      → Numbered 1 chain
      → IsNumbered (old ++ write_chain now ids (n + 1) chain)
  append-IsNumbered n old chain early numbered counted i k s t at_i at_k same_round same_number =
      let new = write_chain now ids (n + 1) chain in
      let late = λ (p : ℕ) (x : ApprovalStep) (found : get_elem? old p ≡ some x).
        All-get_elem? (λ y. y.submission_round ≤ n) old p x early found in
      elim (get_elem?-append old new i s at_i) [
        | inl a ↦ elim (get_elem?-append old new k t at_k) [
          | inl b ↦ numbered i k s t a b same_round same_number
          | inr (j, place, found) ↦
              let (_, round) = row_at (n + 1) j chain t counted found in
              omega (arith, round, same_round, late i s a)
        ]
        | inr (j, place, found) ↦
            let (first, round) = row_at (n + 1) j chain s counted found in
            elim (get_elem?-append old new k t at_k) [
              | inl b ↦ omega (arith, round, same_round, late k t b)
              | inr (m, place2, found2) ↦
                  let (second, _) = row_at (n + 1) m chain t counted found2 in
                  omega (arith, first, second, same_number, place, place2)
            ]
      ]

-- Where the chain of the draft is numbered from 1, a submission that succeeds on a well-formed
-- claim, or on none, leaves a well-formed claim that is pending approval.
pub submit-IsWellFormed :
    (now : DateTime) (ids : EmployeeIds) (fresh : ℕ) (draft : ClaimDraft)
    (stored : Option SettlementClaim) (after : SettlementClaim)
    → Numbered 1 draft.chain
    → ((claim : SettlementClaim) → stored ≡ some claim → IsWellFormed claim)
    → submit now ids fresh draft stored ≡ ok after
    → IsWellFormed after × (after.status ≡ ClaimStatus.pending_approval)
unfolding submitted new_claim
submit-IsWellFormed now ids fresh draft stored after numbered old e =
    let (_, claim, opened, same) = submit_ok now ids fresh draft stored after e in
    let ((early, apart), is_draft) =
      open_claim_lem IsWellFormed fresh draft.travel_request_id stored claim
        (tt, λ i k s t a b c d. let x = a in cc) old opened in
    let chain = write_chain now ids (claim.return_count + 1) draft.chain in
    let before : All (λ s. s.submission_round ≤ claim.return_count) claim.approval_steps =
      let x = rw is_draft at early in x in
    subst (λ c. IsWellFormed c × (c.status ≡ ClaimStatus.pending_approval)) (sym same)
      (
        (
          All-append (λ s. s.submission_round ≤ claim.return_count + 1) claim.approval_steps chain
              (All-imp claim.approval_steps (λ s h. omega arith) before)
              (rows_early now ids (claim.return_count + 1) draft.chain),
          append-IsNumbered now ids claim.return_count claim.approval_steps draft.chain before apart
              numbered,
        ),
        refl,
      )
