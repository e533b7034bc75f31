-- ===== src/Tests/Listing.antt =====
-- The pending queue of the manager whose decision a claim awaits.
use expense_reimbursement_ta.Prelude.{◌≡◌, refl, some, List, [], ◌∷◌, All, Any}
use expense_reimbursement_ta.Prelude.Result.{ok}
use expense_reimbursement_ta.Prelude.Text.{codes, is_empty, strip}
use expense_reimbursement_ta.Approvals.Queue.{RoutedClaim, Scope, my_step}
use expense_reimbursement_ta.Approvals.Queue.Listing.{
  ApprovalQueueItemResponse, approval_queue, claims_for, item_of, row_of,
}
use expense_reimbursement_ta.Approvals.Queue.Listing.Order.{IsOrdered}
use expense_reimbursement_ta.Approvals.Queue.Listing.Shown.{
  IsAmong, IsOf, IsShown, IsTheirs, approval_queue_lem,
}
use expense_reimbursement_ta.Claims.Materialise.{new_claim, submitted}
use expense_reimbursement_ta.Claims.Serialisers.{front}
use expense_reimbursement_ta.Identity.{Employee, admin_user}
use expense_reimbursement_ta.Tests.Approvals.{manager_step, waiting}
use expense_reimbursement_ta.Tests.Desk.{claimant, tables, trip}

abbrev row : RoutedClaim
row = record { request = trip; claim = waiting; claimant = claimant }

abbrev items : List ApprovalQueueItemResponse
items = item_of row manager_step ∷ []

lists : approval_queue tables (some (codes "E2")) Scope.pending ≡ ok items
unfolding approval_queue submitted new_claim is_empty strip front
lists = refl

approval_queue_lem_example :
    (user : Employee) × (admin_user tables.employees (some (codes "E2")) ≡ ok user)
    × IsOrdered items
    × All (λ item. Any (IsOf user.id Scope.pending item) (claims_for tables user)) items
    × All (λ row. Any (IsTheirs tables user.id row) tables.claims) (claims_for tables user)
    × All (λ claim. IsAmong user.id (claims_for tables user) (row_of tables claim)) tables.claims
    × All
        (λ row. IsShown row (my_step row.claim user.id Scope.pending) items)
        (claims_for tables user)
approval_queue_lem_example = approval_queue_lem tables (some (codes "E2")) Scope.pending items lists
