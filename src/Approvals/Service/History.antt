-- ===== src/Approvals/Service/History.antt =====
-- The claims that submissions (claims/materialise.py) and decisions (approvals/service.py) lead to.
pub mod Finance
use expense_reimbursement_ta.Prelude.{
  ℕ, ◌≡◌, refl, ap, subst, Bool, true, false, Option, none, some, List, [], ◌==◌, ==_iff,
}
use expense_reimbursement_ta.Prelude.Int.{ℤ}
use expense_reimbursement_ta.Prelude.Result.{ok, err}
use expense_reimbursement_ta.Models.{DateTime, ApprovalDecision, ClaimStatus, is_pending}
use expense_reimbursement_ta.Policy.Params.{Node}
use expense_reimbursement_ta.Claims.Rows.{ApprovalStep, SettlementClaim, Remark}
use expense_reimbursement_ta.Claims.Lifecycle.{cannot_go, assert_transition}
use expense_reimbursement_ta.Claims.Materialise.{ClaimDraft, EmployeeIds, submit}
use expense_reimbursement_ta.Claims.Materialise.Rounds.{submit-IsWellFormed}
use expense_reimbursement_ta.Approvals.Routing.{EmployeeRef, directory_of, resolve_chain}
use expense_reimbursement_ta.Approvals.Routing.Chain.{Numbered, resolve_chain_sound}
use expense_reimbursement_ta.Approvals.Routing.Line.{directory_of-IsKeyed}
use expense_reimbursement_ta.Approvals.Service.{
  DecisionEvent, DecisionResult, current_step, decided_claim, invalid_transition, record_decision,
  remaining, lift, status_of_remaining, target_status,
}
use expense_reimbursement_ta.Approvals.Service.Decisions.{IsDecided}
use expense_reimbursement_ta.Approvals.Service.Outcomes.{record_decision_sound}
use expense_reimbursement_ta.Approvals.Service.Rounds.{verified-IsDecided}
use expense_reimbursement_ta.Approvals.Service.Invariant.{
  IsWellFormed, record_decision-IsWellFormed,
}

-- The draft's chain is one that the routing resolves.
abbrev pub IsRouted : ClaimDraft → Type 0
IsRouted draft =
    (value : ℤ) × (claimant : EmployeeRef) × (people : List EmployeeRef) × (params : Node)
    × (international : Bool) × (resolve_chain value claimant (directory_of people) params
          international
        ≡ ok draft.chain)

-- The claims that come about: a first submission, a submission of a stored claim, and a decision.
pub data Reached : SettlementClaim → Type 0 where
  first :
      (now : DateTime) (ids : EmployeeIds) (fresh : ℕ) (draft : ClaimDraft)
      {after : SettlementClaim}
      → IsRouted draft
      → submit now ids fresh draft none ≡ ok after
      → Reached after
  again :
      (now : DateTime) (ids : EmployeeIds) (fresh : ℕ) (draft : ClaimDraft)
      (claim : SettlementClaim) {after : SettlementClaim}
      → Reached claim
      → IsRouted draft
      → submit now ids fresh draft (some claim) ≡ ok after
      → Reached after
  decided :
      (now : DateTime) (claim : SettlementClaim) (expected : ℕ) (decision : ApprovalDecision)
      (approver : Option ℕ) (remarks : Option Remark) {after : SettlementClaim}
      (event : DecisionEvent) (result : DecisionResult)
      → Reached claim
      → is_pending decision ≡ false
      → record_decision now claim expected decision approver remarks ≡ ok (after, event, result)
      → Reached after

pub routed-Numbered : (draft : ClaimDraft) → IsRouted draft → Numbered 1 draft.chain
routed-Numbered draft (value, claimant, people, params, international, e) =
    let (_, _, _, _, _, numbered, _) =
      resolve_chain_sound value claimant (directory_of people) params international draft.chain
        (directory_of-IsKeyed people) e in
    numbered

-- Every claim that comes about is well-formed: no step belongs to a round that has not begun, a
-- draft has no step of its coming round, and the steps of a round are numbered apart.
pub Reached-IsWellFormed : (claim : SettlementClaim) → Reached claim → IsWellFormed claim
Reached-IsWellFormed claim (first now ids fresh draft routed e) =
    (submit-IsWellFormed now ids fresh draft none claim (routed-Numbered draft routed)
      (λ c q. let x = q in cc) e).0
Reached-IsWellFormed claim (again now ids fresh draft c before routed e) =
    let earlier = Reached-IsWellFormed c before in
    (submit-IsWellFormed now ids fresh draft (some c) claim (routed-Numbered draft routed)
      (λ d q. let same : c ≡ d = cc in subst IsWellFormed same earlier) e).0
Reached-IsWellFormed claim
      (decided now c expected decision approver remarks event result before acts e) =
    record_decision-IsWellFormed now c expected decision approver remarks claim event result e
      (Reached-IsWellFormed c before)

decision-IsDecided :
    (now : DateTime) (claim : SettlementClaim) (expected : ℕ) (decision : ApprovalDecision)
    (approver : Option ℕ) (remarks : Option Remark) (after : SettlementClaim)
    (event : DecisionEvent) (result : DecisionResult)
    → is_pending decision ≡ false
    → IsWellFormed claim
    → record_decision now claim expected decision approver remarks ≡ ok (after, event, result)
    → after.status ≡ ClaimStatus.verified
    → IsDecided after
unfolding decided_claim target_status
decision-IsDecided now claim expected ApprovalDecision.pending approver remarks after event result
      acts h e v =
    let x = acts in cc
decision-IsDecided now claim expected ApprovalDecision.approved approver remarks after event result
      acts h e v =
    verified-IsDecided now claim expected approver remarks after event result h.1 e v
decision-IsDecided now claim expected ApprovalDecision.rejected approver remarks after event result
      acts h e v =
    let (_, _, _, _, _, same, _, _, _, _, _) =
      record_decision_sound now claim expected ApprovalDecision.rejected approver remarks after
        event result e in
    let status : after.status ≡ ClaimStatus.rejected = ap (λ c. c.status) same in cc
decision-IsDecided now claim expected ApprovalDecision.returned approver remarks after event result
      acts h e v =
    let (_, _, _, _, _, same, _, _, _, _, _) =
      record_decision_sound now claim expected ApprovalDecision.returned approver remarks after
        event result e in
    let status : after.status ≡ ClaimStatus.draft = ap (λ c. c.status) same in cc

-- A verified claim, however it came about, has no step of its round that awaits a decision.
pub Reached-IsDecided :
    (claim : SettlementClaim)
    → Reached claim
    → claim.status ≡ ClaimStatus.verified
    → IsDecided claim
Reached-IsDecided claim (first now ids fresh draft routed e) verified =
    let (_, status) =
      submit-IsWellFormed now ids fresh draft none claim (routed-Numbered draft routed)
        (λ c q. let x = q in cc) e in
    cc
Reached-IsDecided claim (again now ids fresh draft c before routed e) verified =
    let earlier = Reached-IsWellFormed c before in
    let (_, status) =
      submit-IsWellFormed now ids fresh draft (some c) claim (routed-Numbered draft routed)
        (λ d q. let same : c ≡ d = cc in subst IsWellFormed same earlier) e in
    cc
Reached-IsDecided claim
      (decided now c expected decision approver remarks event result before acts e) verified =
    decision-IsDecided now c expected decision approver remarks claim event result acts
      (Reached-IsWellFormed c before) e verified

pending_approval_not_verified :
    assert_transition ClaimStatus.pending_approval ClaimStatus.verified
    ≡ err (cannot_go ClaimStatus.pending_approval ClaimStatus.verified)
unfolding assert_transition
pending_approval_not_verified = refl

-- While a claim is pending approval, an approval of the last step that awaits one in its round is
-- refused: the approval leads to verified, which the table does not allow from there.
pub last_approval_refused :
    (now : DateTime) (claim : SettlementClaim) (i : ℕ) (step : ApprovalStep) (approver : Option ℕ)
    (remarks : Option Remark)
    → claim.status ≡ ClaimStatus.pending_approval
    → current_step claim ≡ ok (i, step)
    → remaining claim step ≡ []
    → record_decision now claim claim.version ApprovalDecision.approved approver remarks
      ≡ err (invalid_transition (cannot_go ClaimStatus.pending_approval ClaimStatus.verified))
unfolding record_decision target_status status_of_remaining lift
last_approval_refused now claim i step approver remarks status current alone =
    let version : (claim.version == claim.version) ≡ true =
      (==_iff claim.version claim.version).1 refl in
    let refused : assert_transition ClaimStatus.pending_approval ClaimStatus.verified
        ≡ err (cannot_go ClaimStatus.pending_approval ClaimStatus.verified) =
      pending_approval_not_verified in
    rw (version, current, alone, status, refused) refl
