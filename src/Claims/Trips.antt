-- ===== src/Claims/Trips.antt =====
-- claims/router.py: which trips a caller sees, and which they may change. What `build_claim` makes of
-- a draft is an argument.
pub mod Access
pub mod Apply
pub mod Documents
pub mod Submission
use expense_reimbursement_ta.Prelude.{
  ℕ, Bool, false, ◌&&◌, Option, none, some, List, [], map, reverse, any, filter, ◌==◌,
  if◌then◌else◌, is_some,
}
use expense_reimbursement_ta.Prelude.Int.{ℤ, pos}
use expense_reimbursement_ta.Prelude.Sort.{sorted}
use expense_reimbursement_ta.Prelude.Result.{Result, ok, err, ◌>>=◌}
use expense_reimbursement_ta.Prelude.Text.{Text, codes}
use expense_reimbursement_ta.Models.{ClaimStatus, Date, claim_draft}
use expense_reimbursement_ta.Claims.Lifecycle.{submission_deadline}
use expense_reimbursement_ta.Claims.Rows.{SettlementClaim}
use expense_reimbursement_ta.Claims.Serialisers.{pending_step_for}
use expense_reimbursement_ta.Approvals.Queue.{is_routed_to}
use expense_reimbursement_ta.Http.{
  HttpError, http_error, claim_locked, no_such_trip, not_the_claimant,
}
use expense_reimbursement_ta.Identity.{Employee, is_admin, profile_for}
use expense_reimbursement_ta.Tables.{Tables, TravelRequest, employee_of, load_claim, trip_of}

-- A claim for the trip has a step that is addressed to the person with the id.
unfoldable pub trip_routed_to : Tables → ℕ → ℕ → Bool
unfolding is_routed_to
trip_routed_to tables travel_request_id user =
    any (λ c. c.travel_request_id == travel_request_id && is_routed_to user c) tables.claims

-- The condition of `_visible_trips`.
unfoldable pub is_listed : Tables → Employee → TravelRequest → Bool
unfolding trip_routed_to profile_for
is_listed tables user request =
    if is_admin (profile_for user.role)
    then trip_routed_to tables request.id user.id
    else request.employee_id == user.id

-- `_visible_trips`, the latest departure first.
unfoldable pub visible_trips : Tables → Employee → List TravelRequest
unfolding is_listed sorted
visible_trips tables user =
    reverse (sorted (λ t. t.from_date) (filter (is_listed tables user) tables.trips))

unfoldable pub visible_or_404 :
    Tables → Employee → Option TravelRequest → Result HttpError TravelRequest
unfolding trip_routed_to profile_for
visible_or_404 tables user none = err (http_error 404 no_such_trip)
visible_or_404 tables user (some request) =
    if request.employee_id == user.id
    then ok request
    else if is_admin (profile_for user.role) && trip_routed_to tables request.id user.id
    then ok request
    else err (http_error 404 no_such_trip)

unfoldable pub require_visible_trip : Tables → Text → Employee → Result HttpError TravelRequest
unfolding trip_of visible_or_404
require_visible_trip tables trq_id user = visible_or_404 tables user (trip_of tables trq_id)

unfoldable pub require_claimant : TravelRequest → Employee → Result HttpError (Unit {0})
require_claimant request user =
    if request.employee_id == user.id then ok tt else err (http_error 403 not_the_claimant)

unfoldable pub require_draft : Option SettlementClaim → Result HttpError (Unit {0})
require_draft none = ok tt
require_draft (some claim) =
    if claim_draft claim.status then ok tt else err (http_error 409 (claim_locked claim.status))

unfoldable pub require_own_draft : Tables → Text → Employee → Result HttpError TravelRequest
unfolding require_visible_trip require_claimant load_claim require_draft
require_own_draft tables trq_id user = do
  request ← require_visible_trip tables trq_id user
  own ← require_claimant request user
  free ← require_draft (load_claim tables request.id)
  ok request

-- What a draft shows: whether it can be submitted, and what it would pay.
pub record DraftFigures : Type 0 where
  pub can_submit : Bool
  pub payable : ℤ

pub data TripStatus : Type 0 where
  of_claim : ClaimStatus → TripStatus
  ready_to_submit draft : TripStatus

pub record TripSummaryResponse : Type 0 where
  pub trq_id : Text
  pub employee_name : Text
  pub employee_code : Text
  pub destination : Text
  pub from_date : Date
  pub to_date : Date
  pub status : TripStatus
  pub payable : ℤ
  pub submission_deadline : Date
  pub awaiting_me : Bool

-- The column `payable`, which is 0 before a submission.
abbrev pub payable_of : SettlementClaim → ℤ
payable_of claim = elim claim.summary [ none ↦ pos 0 | some summary ↦ summary.payable ]

abbrev draft_summary : DraftFigures → TripStatus × ℤ × Bool
draft_summary figures =
    (if figures.can_submit then ready_to_submit else draft, figures.payable, false)

unfoldable pub summary_for :
    DraftFigures → Option SettlementClaim → Employee → TripStatus × ℤ × Bool
unfolding pending_step_for
summary_for figures none user = draft_summary figures
summary_for figures (some claim) user =
    if claim_draft claim.status
    then draft_summary figures
    else (of_claim claim.status, payable_of claim, is_some (pending_step_for claim user.id))

abbrev name_of : Option Employee → Text
name_of none = codes "Unknown"
name_of (some employee) = employee.name

abbrev code_of : Option Employee → Text
code_of none = []
code_of (some employee) = employee.emp_code

unfoldable pub trip_summary :
    Tables → (TravelRequest → DraftFigures) → Employee → TravelRequest → TripSummaryResponse
unfolding load_claim employee_of summary_for submission_deadline
trip_summary tables figures user request =
    let employee = employee_of tables request.employee_id in
    let (status, payable, awaiting) =
      summary_for (figures request) (load_claim tables request.id) user in
    record {
      trq_id = request.trq_id;
      employee_name = name_of employee;
      employee_code = code_of employee;
      destination = request.destination_city;
      from_date = request.from_date;
      to_date = request.to_date;
      status = status;
      payable = payable;
      submission_deadline = submission_deadline request.to_date 7;
      awaiting_me = awaiting;
    }

unfoldable pub list_trips :
    Tables → (TravelRequest → DraftFigures) → Employee → List TripSummaryResponse
unfolding visible_trips trip_summary
list_trips tables figures user = map (trip_summary tables figures user) (visible_trips tables user)
