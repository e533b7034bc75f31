-- ===== src/Approvals/Service/History/Finance.antt =====
-- What statuses a claim has had, by the submissions (claims/materialise.py) and decisions
-- (approvals/service.py) that led to it.
use expense_reimbursement_ta.Prelude.{
  ◌≡◌, refl, ap, subst, sym, true, false, none, some, List, [], ◌∷◌, arith, inl, inr,
}
use expense_reimbursement_ta.Prelude.Result.{ok}
use expense_reimbursement_ta.Models.{ClaimStatus, same_status}
use expense_reimbursement_ta.Claims.Lifecycle.{assert_transition}
use expense_reimbursement_ta.Claims.Lifecycle.Transitions.{
  has_been, past_finance, verified_after_finance,
}
use expense_reimbursement_ta.Claims.Materialise.Rounds.{submit-IsWellFormed}
use expense_reimbursement_ta.Claims.Rows.{SettlementClaim}
use expense_reimbursement_ta.Approvals.Service.{decided_claim, target_status}
use expense_reimbursement_ta.Approvals.Service.Invariant.{IsWellFormed}
use expense_reimbursement_ta.Approvals.Service.History.{
  Reached, Reached-IsWellFormed, again, decided, first, routed-Numbered,
}
use expense_reimbursement_ta.Approvals.Service.Outcomes.{record_decision_sound}

-- The statuses that the claim was left in on its way, the present one first.
abbrev pub statuses : {claim : SettlementClaim} → Reached claim → List ClaimStatus
statuses (first now ids fresh draft {after = after} routed e) = after.status ∷ []
statuses (again now ids fresh draft claim {after = after} before routed e) =
    after.status ∷ statuses before
statuses
      (decided now claim expected decision approver remarks {after = after} event result before acts
        e) =
    after.status ∷ statuses before

same_status_refl : (s : ClaimStatus) → same_status s s ≡ true
same_status_refl s = ground arith

has_been_now :
    (s : ClaimStatus) {claim : SettlementClaim} (r : Reached claim)
    → claim.status ≡ s
    → has_been s (statuses r) ≡ true
has_been_now s (first now ids fresh draft routed e) same = rw (same, same_status_refl s) refl
has_been_now s (again now ids fresh draft claim before routed e) same =
    rw (same, same_status_refl s) refl
has_been_now s (decided now claim expected decision approver remarks event result before acts e)
      same =
    rw (same, same_status_refl s) refl

-- A submission leaves a claim pending approval.
submitted_pending :
    (claim : SettlementClaim)
    → claim.status ≡ ClaimStatus.pending_approval
    → past_finance claim.status ≡ false
submitted_pending claim same = rw same refl

has_been_before :
    (s t : ClaimStatus) (past : List ClaimStatus)
    → has_been s past ≡ true
    → has_been s (t ∷ past) ≡ true
has_been_before s t past h = ground (arith, h)

-- A claim that submissions and decisions have led to, and that is verified or beyond, was pending
-- with Finance on the way: one of them left it with that status.
pub finance_before_payment :
    (claim : SettlementClaim) (r : Reached claim)
    → past_finance claim.status ≡ true
    → has_been ClaimStatus.pending_finance (statuses r) ≡ true
unfolding decided_claim
finance_before_payment claim (first now ids fresh draft routed e) past =
    let (_, status) =
      submit-IsWellFormed now ids fresh draft none claim (routed-Numbered draft routed)
        (λ c q. let x = q in cc) e in
    let x = submitted_pending claim status in cc
finance_before_payment claim (again now ids fresh draft c before routed e) past =
    let earlier = Reached-IsWellFormed c before in
    let (_, status) =
      submit-IsWellFormed now ids fresh draft (some c) claim (routed-Numbered draft routed)
        (λ d q. let same : c ≡ d = cc in subst IsWellFormed same earlier) e in
    let x = submitted_pending claim status in cc
finance_before_payment claim
      (decided now c expected decision approver remarks event result before acts e) past =
    let (_, _, step, _, allowed, same, _, _, _, _, _) =
      record_decision_sound now c expected decision approver remarks claim event result e in
    let target : claim.status ≡ target_status c step decision = ap (λ k. k.status) same in
    let moved : assert_transition c.status claim.status ≡ ok tt =
      subst (λ s. assert_transition c.status s ≡ ok tt) (sym target) allowed in
    elim (verified_after_finance c.status claim.status moved past) [
      | inl earlier ↦
          has_been_before ClaimStatus.pending_finance claim.status (statuses before)
            (finance_before_payment c before earlier)
      | inr with_finance ↦
          has_been_before ClaimStatus.pending_finance claim.status (statuses before)
            (has_been_now ClaimStatus.pending_finance before with_finance)
    ]
