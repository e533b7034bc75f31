-- ===== src/Claims/Trips/Submission/Handed.antt =====
-- What a submission leaves (`submit_claim` of claims/router.py).
use expense_reimbursement_ta.Prelude.{
  ℕ, ◌≡◌, ◌≢◌, refl, sym, ap, subst, ◌∙◌, some, arith, Any, here, there, true, inl, ◌==◌,
}
use expense_reimbursement_ta.Prelude.Result.{Result, ok, err, ok_inj, bind_ok}
use expense_reimbursement_ta.Prelude.Text.{Text}
use expense_reimbursement_ta.Models.{ClaimStatus, DateTime}
use expense_reimbursement_ta.Approvals.Queue.Delivery.{Asks, to_approver-Asks}
use expense_reimbursement_ta.Claims.Materialise.{
  ClaimDraft, EmployeeIds, SubmitError, submit, submitted,
}
use expense_reimbursement_ta.Claims.Materialise.Rounds.{submit_ok}
use expense_reimbursement_ta.Claims.Rows.{ApprovalStep, SettlementClaim}
use expense_reimbursement_ta.Claims.Serialisers.{front}
use expense_reimbursement_ta.Claims.Trips.{
  require_claimant, require_draft, require_own_draft, require_visible_trip,
}
use expense_reimbursement_ta.Claims.Trips.Access.{require_own_draft_sound, require_visible_trip_lem}
use expense_reimbursement_ta.Claims.Trips.Submission.{
  Submitted, handed_in, submit_answered, submit_claim,
}
use expense_reimbursement_ta.Http.{http_error, claim_locked}
use expense_reimbursement_ta.Identity.{Employee}
use expense_reimbursement_ta.Notifications.{notify, notify_submitted, submitted_to_you}
use expense_reimbursement_ta.Tables.{Tables, TravelRequest, load_claim, trip_of}

submit_answered_ok :
    (r : Result SubmitError SettlementClaim) (claim : SettlementClaim)
    → submit_answered r ≡ ok claim
    → r ≡ ok claim
unfolding submit_answered
submit_answered_ok (ok c) claim e = ap ok (ok_inj e)
submit_answered_ok (err x) claim e = cc

module _ (now : DateTime) (tables : Tables) (ids : EmployeeIds) (fresh : ℕ)
    (draft_for : TravelRequest → ClaimDraft) (trq_id : Text) (user : Employee) (left : Submitted)
    (done : submit_claim now tables ids fresh draft_for trq_id user ≡ ok left) where
  -- A claim is handed in by the claimant of the trip, on whose trip no claim but a draft was stored;
  -- it is pending approval, and is what the submission makes of the stored draft, or of none. The
  -- claimant is notified; and the notifications are written for the step at the front of the claim's
  -- round.
  pub submit_claim_sound :
      (request : TravelRequest) × (trip_of tables trq_id ≡ some request)
      × (request.employee_id ≡ user.id)
      × ((claim : SettlementClaim)
          → load_claim tables request.id ≡ some claim
          → claim.status ≡ ClaimStatus.draft)
      × (submit now ids fresh (draft_for request) (load_claim tables request.id) ≡ ok left.claim)
      × (left.claim.status ≡ ClaimStatus.pending_approval)
      × Any (λ n. n.recipient_employee_id ≡ user.id) left.notifications
      × (left.notifications
          ≡ notify_submitted tables.employees left.claim request.trq_id user
              (front left.claim)
              (draft_for request).summary.payable)
  unfolding submit_claim handed_in notify_submitted notify submitted
  submit_claim_sound =
      let (request, own, e1) = bind_ok (require_own_draft tables trq_id user) _ left done in
      let (routed, answered, e2) =
        bind_ok
          (submit_answered
            (submit now ids fresh (draft_for request) (load_claim tables request.id)))
          _ left e1 in
      let (found, claimant, free) = require_own_draft_sound tables user trq_id request own in
      let wrote =
        submit_answered_ok (submit now ids fresh (draft_for request) (load_claim tables request.id))
          routed answered in
      let (_, _, _, made) =
        submit_ok now ids fresh (draft_for request) (load_claim tables request.id) routed wrote in
      let same : handed_in tables request user (draft_for request) routed ≡ left = ok_inj e2 in
      let same_claim : routed ≡ left.claim = ap (λ l. l.claim) same in
      (
        request,
        found,
        claimant,
        free,
        wrote ∙ ap ok same_claim,
        ap (λ c. c.status) (sym same_claim ∙ made),
        subst (λ l. Any (λ n. n.recipient_employee_id ≡ user.id) l.notifications) same (here refl),
        subst
            (λ l.
              l.notifications
              ≡ notify_submitted tables.employees l.claim request.trq_id user (front l.claim)
                  (draft_for request).summary.payable)
            same refl,
      )

  -- The person, whose id is not 0, that the step at the front of the round of a claim handed in is
  -- addressed to is notified that the claim awaits their approval.
  pub submit_claim-Asks :
      (next : ApprovalStep) (approver : ℕ)
      → front left.claim ≡ some next
      → next.approver_employee_id ≡ some approver
      → approver ≢ 0
      → Any (Asks approver) left.notifications
  unfolding notify_submitted
  submit_claim-Asks next approver at_front to_approver differs =
      let (request, _, _, _, _, _, _, written) = submit_claim_sound in
      let payable = (draft_for request).summary.payable in
      subst (Any (Asks approver))
        (sym (
          written
          ∙ ap (λ f. notify_submitted tables.employees left.claim request.trq_id user f payable)
              at_front))
        (there (
          to_approver-Asks next approver
            (λ sequence role. submitted_to_you user.name request.trq_id payable sequence role)
            request.trq_id left.claim user.id to_approver differs))

  draft_locked :
      (claim : SettlementClaim)
      → claim.status ≡ ClaimStatus.pending_approval
      → require_draft (some claim)
        ≡ err (http_error 409 (claim_locked ClaimStatus.pending_approval))
  unfolding require_draft
  draft_locked claim e = rw e refl

  -- Once the claim of a trip is stored as it was handed in, handing it in again is refused.
  pub second_submission_refused :
      (later : DateTime) (stored : Tables) (again : TravelRequest → ClaimDraft)
      (request : TravelRequest)
      → trip_of tables trq_id ≡ some request
      → trip_of stored trq_id ≡ some request
      → load_claim stored request.id ≡ some left.claim
      → submit_claim later stored ids fresh again trq_id user
        ≡ err (http_error 409 (claim_locked ClaimStatus.pending_approval))
  unfolding submit_claim require_own_draft require_claimant
  second_submission_refused later stored again request before now_there kept =
      let (r, found, own, _, _, status, _, _) = submit_claim_sound in
      let same : r ≡ request = cc in
      let mine : request.employee_id ≡ user.id = subst (λ t. t.employee_id ≡ user.id) same own in
      let seen : require_visible_trip stored trq_id user ≡ ok request =
        ((require_visible_trip_lem stored user trq_id).0 request).1 (now_there, inl mine) in
      let claimant : (request.employee_id == user.id) ≡ true = ground (arith, mine) in
      rw (seen, claimant, kept, draft_locked left.claim status) refl
