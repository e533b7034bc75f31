-- ===== src/Approvals/Queue/Listing.antt =====
-- `approval_queue` of approvals/router.py: what is on an approver's desk, and what they have decided.
-- The external id of a claim is left out of an item, and its amounts stay numbers.
pub mod Order
pub mod Shown
use expense_reimbursement_ta.Prelude.{
  ℕ, Bool, true, false, ◌&&◌, ◌||◌, Option, none, some, List, [], ◌∷◌, ◌++◌, find, ltb, leb, ◌==◌,
  if◌then◌else◌,
}
use expense_reimbursement_ta.Prelude.Int.{ℤ, pos}
use expense_reimbursement_ta.Prelude.Result.{Result, ok, ◌>>=◌}
use expense_reimbursement_ta.Prelude.Text.{Text}
use expense_reimbursement_ta.Models.{ApprovalDecision, ClaimStatus, Date, DateTime, Role}
use expense_reimbursement_ta.Claims.Rows.{ApprovalStep, Remark, SettlementClaim}
use expense_reimbursement_ta.Claims.Summary.{SettlementSummary}
use expense_reimbursement_ta.Approvals.Queue.{RoutedClaim, Scope, is_routed_to, my_step}
use expense_reimbursement_ta.Http.{HttpError}
use expense_reimbursement_ta.Identity.{Employee, admin_user}
use expense_reimbursement_ta.Tables.{Tables, TravelRequest, employee_of}

pub record ApprovalQueueItemResponse : Type 0 where
  pub trq_id : Text
  pub employee_name : Text
  pub employee_code : Text
  pub destination : Text
  pub from_date : Date
  pub to_date : Date
  pub status : ClaimStatus
  pub payable : ℤ
  pub net_reimbursable : ℤ
  pub disallowed_total : ℤ
  pub version : ℕ
  pub sequence : ℕ
  pub role : Role
  pub decision : ApprovalDecision
  pub submitted_at : Option DateTime
  pub remarks : Option Remark

-- A column of amounts, which is 0 before a submission.
abbrev amount_of : (SettlementSummary → ℤ) → Option SettlementSummary → ℤ
amount_of column none = pos 0
amount_of column (some summary) = column summary

unfoldable pub item_of : RoutedClaim → ApprovalStep → ApprovalQueueItemResponse
item_of row mine = record {
  trq_id = row.request.trq_id;
  employee_name = row.claimant.name;
  employee_code = row.claimant.emp_code;
  destination = row.request.destination_city;
  from_date = row.request.from_date;
  to_date = row.request.to_date;
  status = row.claim.status;
  payable = amount_of (λ s. s.payable) row.claim.summary;
  net_reimbursable = amount_of (λ s. s.net_reimbursable) row.claim.summary;
  disallowed_total = amount_of (λ s. s.disallowed_total) row.claim.summary;
  version = row.claim.version;
  sequence = mine.sequence;
  role = mine.role;
  decision = mine.decision;
  submitted_at = row.claim.submitted_at;
  remarks = mine.remarks;
}

abbrev with_claimant : SettlementClaim → TravelRequest → Option Employee → Option RoutedClaim
with_claimant claim request none = none
with_claimant claim request (some claimant) =
    some (record { request = request; claim = claim; claimant = claimant })

abbrev with_trip : Tables → SettlementClaim → Option TravelRequest → Option RoutedClaim
with_trip tables claim none = none
with_trip tables claim (some request) =
    with_claimant claim request (employee_of tables request.employee_id)

-- The row of a claim in the join with its trip and its claimant.
unfoldable pub row_of : Tables → SettlementClaim → Option RoutedClaim
unfolding employee_of
row_of tables claim =
    with_trip tables claim (find (λ t. t.id == claim.travel_request_id) tables.trips)

-- The row, if a step of its claim is addressed to the person with the id.
unfoldable pub addressed : ℕ → Option RoutedClaim → List RoutedClaim
unfolding is_routed_to
addressed user none = []
addressed user (some row) = if is_routed_to user row.claim then row ∷ [] else []

unfoldable pub claims_from : Tables → ℕ → List SettlementClaim → List RoutedClaim
unfolding row_of addressed
claims_from tables user [] = []
claims_from tables user (claim ∷ rest) =
    addressed user (row_of tables claim) ++ claims_from tables user rest

-- `_claims_for`
unfoldable pub claims_for : Tables → Employee → List RoutedClaim
unfolding claims_from
claims_for tables user = claims_from tables user.id tables.claims

-- What a row adds to the queue.
unfoldable pub entry : RoutedClaim → Option ApprovalStep → List ApprovalQueueItemResponse
unfolding item_of
entry row none = []
entry row (some mine) = item_of row mine ∷ []

unfoldable pub entries : ℕ → Scope → List RoutedClaim → List ApprovalQueueItemResponse
unfolding entry my_step
entries user scope [] = []
entries user scope (row ∷ rows) =
    entry row (my_step row.claim user scope) ++ entries user scope rows

-- The key `(submitted_at is None, submitted_at)` of the one is not greater than that of the other.
abbrev pub not_after : Option DateTime → Option DateTime → Bool
not_after a none = true
not_after none (some b) = false
not_after (some a) (some b) = ltb a.day b.day || ((a.day == b.day) && leb a.second b.second)

unfoldable pub place :
    ApprovalQueueItemResponse → List ApprovalQueueItemResponse → List ApprovalQueueItemResponse
place x [] = x ∷ []
place x (y ∷ ys) =
    let rest = place x ys in
    if not_after x.submitted_at y.submitted_at then x ∷ y ∷ ys else y ∷ rest

-- `out.sort(key=...)`
unfoldable pub in_order : List ApprovalQueueItemResponse → List ApprovalQueueItemResponse
unfolding place
in_order [] = []
in_order (x ∷ xs) = place x (in_order xs)

unfoldable pub approval_queue :
    Tables → Option Text → Scope → Result HttpError (List ApprovalQueueItemResponse)
unfolding admin_user entries claims_for in_order
approval_queue tables x_emp_code scope = do
  user ← admin_user tables.employees x_emp_code
  ok (in_order (entries user.id scope (claims_for tables user)))
