-- ===== src/Claims/Trips/Apply.antt =====
-- claims/router.py: applying for a trip. A flush is refused if another writer has taken the number
-- since it was read: `races` gives, for each attempt, the numbers that are read and those that the
-- table holds at the flush.
pub mod Numbers
use expense_reimbursement_ta.Prelude.{
  ℕ, zero, suc, ◌+◌, false, Option, none, some, List, [], ◌∷◌, ◌++◌, filter, map, length, ltb,
  if◌then◌else◌,
}
use expense_reimbursement_ta.Prelude.Int.{ℤ, pos}
use expense_reimbursement_ta.Prelude.Decimals.{decimal, is_number, padded, value}
use expense_reimbursement_ta.Prelude.Result.{Result, ok, err, ◌>>=◌}
use expense_reimbursement_ta.Prelude.Text.{
  Text, codes, drop, is_empty, is_member, starts_with, strip,
}
use expense_reimbursement_ta.Models.{CityClass, Date}
use expense_reimbursement_ta.Claims.Lifecycle.{submission_deadline}
use expense_reimbursement_ta.Claims.Trips.{TripSummaryResponse, draft}
use expense_reimbursement_ta.Http.{HttpError, http_error, internal_server_error, trip_not_created}
use expense_reimbursement_ta.Identity.{Employee}
use expense_reimbursement_ta.Tables.{TravelRequest}

-- `year` is the year of `from_date`.
pub record CreateTripRequest : Type 0 where
  pub destination_city : Text
  pub from_date : Date
  pub to_date : Date
  pub year : ℕ
  pub purpose : Text
  pub city_class : CityClass
  pub mode_of_travel : Text
  pub visiting_company : Option Text
  pub travel_category : Option Text
  pub advance_requested : Option ℤ

pub record Race : Type 0 where
  pub reads : List Text
  pub holds : List Text

-- The `ClaimEvent` of a created trip.
pub record TripCreated : Type 0 where
  pub travel_request_id : ℕ
  pub actor_employee_id : ℕ
  pub trq_id : Text
  pub destination : Text

abbrev pub prefix_of : ℕ → Text
prefix_of year = codes "TRQ-" ++ decimal year ++ codes "-"

abbrev pub greatest : List ℕ → ℕ
greatest [] = 0
greatest (n ∷ rest) = let m = greatest rest in if ltb m n then n else m

-- The numbers of the identifiers that begin with the prefix and go on in digits.
unfoldable pub taken_numbers : Text → List Text → List ℕ
unfolding is_number value starts_with
taken_numbers prefix ids =
    map value
      (filter is_number (map (drop (length prefix)) (filter (λ t. starts_with t prefix) ids)))

-- `_next_trq_id`
unfoldable pub next_trq_id : List Text → ℕ → Text
unfolding taken_numbers padded
next_trq_id ids year = prefix_of year ++ padded (greatest (taken_numbers (prefix_of year) ids) + 1)

-- A text, unless it is missing or empty.
abbrev filled : Option Text → Option Text
filled none = none
filled (some t) = if is_empty t then none else some t

abbrev stripped : Option Text → Option Text
stripped none = none
stripped (some t) = some (strip t)

abbrev tier : CityClass → Text
tier CityClass.tier_1 = codes "Tier 1"
tier CityClass.tier_2 = codes "Tier 2"
tier CityClass.tier_3 = codes "Tier 3"

abbrev category : Option Text → CityClass → Text
category none city_class = codes "Domestic - " ++ tier city_class
category (some t) city_class = t

unfoldable pub new_trip : CreateTripRequest → Employee → ℕ → Date → Text → TravelRequest
unfolding strip
new_trip payload user id today trq_id = record {
  id = id;
  trq_id = trq_id;
  employee_id = user.id;
  from_date = payload.from_date;
  to_date = payload.to_date;
  destination_city = strip payload.destination_city;
  city_class = payload.city_class;
  visiting_company = filled (stripped (filled payload.visiting_company));
  purpose = strip payload.purpose;
  travel_category = category (filled payload.travel_category) payload.city_class;
  mode_of_travel = payload.mode_of_travel;
  cost_centre = user.cost_centre;
  advance_requested = payload.advance_requested;
  issued_on = some today;
}

-- The state of the caller's row in the session: its columns can be read, or have to be fetched anew.
pub data RowState : Type 0 where
  loaded expired : RowState

-- The attempts from the `k`-th on, `left` of them. Each reads the caller's columns; of an expired row
-- they cannot be read outside an `await`, and the error that this raises is answered with status
-- 500. What a rollback of the session leaves of the row is an argument.
unfoldable pub claim_number :
    (RowState → RowState) → ℕ → ℕ → ℕ → (ℕ → Race) → RowState → Result HttpError Text
unfolding next_trq_id is_member
claim_number rollback zero k year races row = err (http_error 503 trip_not_created)
claim_number rollback (suc left) k year races expired = err (http_error 500 internal_server_error)
claim_number rollback (suc left) k year races loaded =
    let again = claim_number rollback left (suc k) year races (rollback loaded) in
    let trq_id = next_trq_id (races k).reads year in
    if is_member trq_id (races k).holds then again else ok trq_id

-- The row, the event and the response, once the number is found.
unfoldable pub created :
    CreateTripRequest
    → Employee
    → ℕ
    → Date
    → Text
    → TravelRequest × TripCreated × TripSummaryResponse
unfolding new_trip submission_deadline
created payload user id today trq_id =
    let request = new_trip payload user id today trq_id in
    let event : TripCreated = record {
      travel_request_id = id;
      actor_employee_id = user.id;
      trq_id = trq_id;
      destination = request.destination_city;
    } in
    let response : TripSummaryResponse = record {
      trq_id = trq_id;
      employee_name = user.name;
      employee_code = user.emp_code;
      destination = request.destination_city;
      from_date = request.from_date;
      to_date = request.to_date;
      status = draft;
      payable = pos 0;
      submission_deadline = submission_deadline request.to_date 7;
      awaiting_me = false;
    } in
    (request, event, response)

unfoldable pub create_trip :
    (rollback : RowState → RowState) (payload : CreateTripRequest) (user : Employee) (id : ℕ)
    (today : Date) (races : ℕ → Race)
    → Result HttpError (TravelRequest × TripCreated × TripSummaryResponse)
unfolding claim_number created
create_trip rollback payload user id today races = do
  trq_id ← claim_number rollback 3 0 payload.year races loaded
  ok (created payload user id today trq_id)
