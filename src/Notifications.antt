-- ===== src/Notifications.antt =====
-- notifications/service.py: whom a submission and a decision write to. A notification's title and
-- body are one value with what they quote; the row's own id, its times and its read state are those
-- of `InboxRow` (Notifications/Inbox).
pub mod Inbox
use expense_reimbursement_ta.Prelude.{
  ℕ, ◌==◌, Option, none, some, List, [], ◌∷◌, find, if◌then◌else◌,
}
use expense_reimbursement_ta.Prelude.Int.{ℤ}
use expense_reimbursement_ta.Prelude.Text.{Text, is_empty}
use expense_reimbursement_ta.Models.{Verdict, ClaimStatus, Role}
use expense_reimbursement_ta.Claims.Rows.{ApprovalStep, SettlementClaim}
use expense_reimbursement_ta.Identity.{Employee}

pub data NotificationKind : Type 0 where
  claim_submitted awaiting_your_approval claim_approved claim_returned claim_rejected
        claim_verified :
      NotificationKind

-- Where a claim has gone, as the claimant is told.
pub data Tail : Type 0 where
  verified_for_payment : Tail
  moved_to : (name : Text) (role : Role) → Tail
  moved_to_next : Tail
  correct_and_resubmit : Tail
  no_tail : Tail

pub data Wording : Type 0 where
  submitted : (trq_id : Text) (payable : ℤ) (with_approver : Option (Text × Role)) → Wording
  submitted_to_you : (claimant trq_id : Text) (payable : ℤ) (sequence : ℕ) (role : Role) → Wording
  decided :
      (actor designation : Text) (verb : Verdict) (trq_id : Text) (remarks : Option Text)
      (tail : Tail)
      → Wording
  approved_to_you : (actor claimant trq_id : Text) (sequence : ℕ) (role : Role) → Wording

pub record Notification : Type 0 where
  pub recipient_employee_id : ℕ
  pub kind : NotificationKind
  pub wording : Wording
  pub trq_id : Option Text
  pub claim_id : Option ℕ
  pub travel_request_id : Option ℕ
  pub actor_employee_id : Option ℕ

-- `notify`, called with the claim and the trip that every caller names.
unfoldable pub notify : ℕ → NotificationKind → Wording → Text → SettlementClaim → ℕ → Notification
notify recipient_id kind wording trq_id claim actor_id = record {
  recipient_employee_id = recipient_id;
  kind = kind;
  wording = wording;
  trq_id = some trq_id;
  claim_id = some claim.id;
  travel_request_id = some claim.travel_request_id;
  actor_employee_id = some actor_id;
}

-- `step and step.approver_employee_id`: an id of 0 counts as missing.
unfoldable pub approver_of : Option ApprovalStep → Option ℕ
approver_of none = none
approver_of (some step) = truthy step.approver_employee_id
  where
    truthy : Option ℕ → Option ℕ
    truthy none = none
    truthy (some id) = if id == 0 then none else some id

-- `step.approver`, with the step's role.
unfoldable pub named_approver : List Employee → Option ApprovalStep → Option (Text × Role)
named_approver employees none = none
named_approver employees (some step) = elim step.approver_employee_id [
  | none ↦ none
  | some id ↦ elim (find (λ e. e.id == id) employees) [
    | none ↦ none
    | some approver ↦ some (approver.name, step.role)
  ]
]

-- The notification to the person with the id, if there is one.
unfoldable pub ask : Option ℕ → Wording → Text → SettlementClaim → ℕ → List Notification
unfolding notify
ask none wording trq_id claim actor_id = []
ask (some id) wording trq_id claim actor_id =
    notify id NotificationKind.awaiting_your_approval wording trq_id claim actor_id ∷ []

-- The notification to the approver of a step, where it has one.
unfoldable pub to_approver :
    Option ApprovalStep → (ℕ → Role → Wording) → Text → SettlementClaim → ℕ → List Notification
unfolding approver_of ask
to_approver none wording trq_id claim actor_id = []
to_approver (some step) wording trq_id claim actor_id =
    ask (approver_of (some step)) (wording step.sequence step.role) trq_id claim actor_id

unfoldable pub notify_submitted :
    (employees : List Employee) (claim : SettlementClaim) (trq_id : Text) (claimant : Employee)
    (first_step : Option ApprovalStep) (payable : ℤ)
    → List Notification
unfolding notify named_approver to_approver
notify_submitted employees claim trq_id claimant first_step payable =
    notify claimant.id NotificationKind.claim_submitted
      (submitted trq_id payable (named_approver employees first_step)) trq_id claim claimant.id
    ∷ to_approver first_step
        (λ sequence role. submitted_to_you claimant.name trq_id payable sequence role) trq_id claim
        claimant.id

abbrev moved : Option (Text × Role) → Tail
moved none = moved_to_next
moved (some (name, role)) = moved_to name role

-- The kind and the tail of what the claimant is told.
unfoldable pub told : Verdict → ClaimStatus → Option (Text × Role) → NotificationKind × Tail
told Verdict.approved ClaimStatus.verified next =
    (NotificationKind.claim_verified, verified_for_payment)
told Verdict.approved _ next = (NotificationKind.claim_approved, moved next)
told Verdict.returned _ next = (NotificationKind.claim_returned, correct_and_resubmit)
told Verdict.rejected _ next = (NotificationKind.claim_rejected, no_tail)

-- `if remarks`
abbrev quoted : Option Text → Option Text
quoted none = none
quoted (some text) = if is_empty text then none else some text

unfoldable pub passed_on :
    Verdict
    → Option ApprovalStep
    → (ℕ → Role → Wording)
    → Text
    → SettlementClaim
    → ℕ
    → List Notification
unfolding to_approver
passed_on Verdict.approved next wording trq_id claim actor_id =
    to_approver next wording trq_id claim actor_id
passed_on _ next wording trq_id claim actor_id = []

unfoldable pub notify_decided :
    (employees : List Employee) (claim : SettlementClaim) (trq_id : Text)
    (claimant actor : Employee) (decision : Verdict) (remarks : Option Text)
    (next_step : Option ApprovalStep)
    → List Notification
unfolding notify named_approver told passed_on
notify_decided employees claim trq_id claimant actor decision remarks next_step =
    let (kind, tail) = told decision claim.status (named_approver employees next_step) in
    notify claimant.id kind
      (decided actor.name actor.designation decision trq_id (quoted remarks) tail) trq_id claim
      actor.id
    ∷ passed_on decision next_step
        (λ sequence role. approved_to_you actor.name claimant.name trq_id sequence role) trq_id
        claim actor.id
