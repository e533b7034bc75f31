-- ===== src/Claims/Lifecycle/Transitions.antt =====
-- What the transition table of claims/lifecycle.py lets a claim do.
use expense_reimbursement_ta.Prelude.{◌≡◌, ◌≢◌, ◌⊎◌, Bool, true, false, List, arith, any}
use expense_reimbursement_ta.Prelude.Result.{ok}
use expense_reimbursement_ta.Models.{ClaimStatus, same_status}
use expense_reimbursement_ta.Claims.Lifecycle.{assert_transition}

abbrev pub past_finance : ClaimStatus → Bool
past_finance ClaimStatus.verified = true
past_finance ClaimStatus.scheduled_for_payment = true
past_finance ClaimStatus.paid = true
past_finance _ = false

abbrev pub has_been : ClaimStatus → List ClaimStatus → Bool
has_been s past = any (same_status s) past

-- A claim gets past Finance only from there, or from a status that is past Finance.
pub verified_after_finance :
    (s t : ClaimStatus)
    → assert_transition s t ≡ ok tt
    → past_finance t ≡ true
    → (past_finance s ≡ true) ⊎ (s ≡ ClaimStatus.pending_finance)
unfolding assert_transition
verified_after_finance s t e h = ground arith

-- A paid or rejected claim goes nowhere, and a draft goes only to its approvers.
pub final_statuses :
    (t : ClaimStatus)
    → (assert_transition ClaimStatus.paid t ≢ ok tt)
      × (assert_transition ClaimStatus.rejected t ≢ ok tt)
      × (assert_transition ClaimStatus.draft t ≡ ok tt → t ≡ ClaimStatus.pending_approval)
unfolding assert_transition
final_statuses t = ground arith
