-- ===== src/Claims/Pipeline/Trip.antt =====
-- `build_claim` of claims/pipeline.py with its queries: the policy version in force, the documents
-- of the trip, the advances drawn, the claimant and the directory.
pub mod Version
pub mod Inputs
use expense_reimbursement_ta.Prelude.{
  ℕ, false, Option, none, some, List, [], ◌∷◌, map, filter, leb, ltb, ◌==◌, is_id, if◌then◌else◌,
}
use expense_reimbursement_ta.Prelude.Int.{ℤ, sum}
use expense_reimbursement_ta.Prelude.Result.{Result, ok, err, ◌>>=◌}
use expense_reimbursement_ta.Prelude.Text.{Text, codes, text_ltb}
use expense_reimbursement_ta.Models.{CityClass, Date}
use expense_reimbursement_ta.Policy.Decision.{EvaluationContext}
use expense_reimbursement_ta.Policy.Params.{Node}
use expense_reimbursement_ta.Approvals.Routing.{EmployeeRef}
use expense_reimbursement_ta.Claims.Drafting.{DraftContext}
use expense_reimbursement_ta.Claims.Pipeline.{PipelineError}
use expense_reimbursement_ta.Claims.Pipeline.Collect.{BuiltDraft, Reading, build_claim}
use expense_reimbursement_ta.Identity.{Employee}
use expense_reimbursement_ta.Tables.{DocumentRow, Tables, TravelRequest, employee_of}

pub record PolicyVersion : Type 0 where
  pub document_id : Text
  pub revision : Text
  pub effective_from : Date
  pub effective_to : Option Date
  pub payload : Node

pub record Advance : Type 0 where
  pub travel_request_id : ℕ
  pub reference : Text
  pub amount : ℤ
  pub disbursed_on : Date

pub data TripError : Type 0 where
  no_policy : (from_date : Date) → TripError
  no_claimant : TripError
  not_built : PipelineError → TripError

-- The first of the versions with the latest start.
unfoldable pub latest_version : PolicyVersion → List PolicyVersion → PolicyVersion
latest_version v [] = v
latest_version v (w ∷ rest) =
    latest_version (if ltb v.effective_from w.effective_from then w else v) rest

unfoldable pub first_version : Date → List PolicyVersion → Result TripError PolicyVersion
unfolding latest_version
first_version from_date [] = err (no_policy from_date)
first_version from_date (v ∷ rest) = ok (latest_version v rest)

unfoldable pub policy_for : List PolicyVersion → TravelRequest → Result TripError PolicyVersion
unfolding first_version
policy_for versions request =
    first_version request.from_date (filter (λ v. leb v.effective_from request.from_date) versions)

-- In front of the first document whose name is not less.
unfoldable pub file_document : DocumentRow → List DocumentRow → List DocumentRow
file_document d [] = d ∷ []
file_document d (e ∷ rest) =
    let more = file_document d rest in
    if text_ltb e.source_filename d.source_filename then e ∷ more else d ∷ e ∷ rest

unfoldable pub by_filename : List DocumentRow → List DocumentRow
unfolding file_document
by_filename [] = []
by_filename (d ∷ rest) = file_document d (by_filename rest)

-- `_documents_for`
unfoldable pub documents_for : Tables → TravelRequest → List DocumentRow
unfolding by_filename
documents_for tables request =
    by_filename (filter (λ d. is_id d.travel_request_id request.id) tables.documents)

-- `_advance_for`
unfoldable pub advance_for : List Advance → TravelRequest → ℤ
unfolding sum
advance_for advances request =
    sum (map (λ a. a.amount) (filter (λ a. a.travel_request_id == request.id) advances))

-- `_employee_ref`
unfoldable pub employee_ref : Employee → EmployeeRef
employee_ref employee = record {
  emp_code = employee.emp_code;
  name = employee.name;
  role = employee.role;
  reporting_manager_code = employee.reporting_manager_code;
}

unfoldable pub city_class_value : CityClass → Text
city_class_value CityClass.tier_1 = codes "Tier 1"
city_class_value CityClass.tier_2 = codes "Tier 2"
city_class_value CityClass.tier_3 = codes "Tier 3"

-- `_evaluation_context`
unfoldable pub evaluation_context : TravelRequest → PolicyVersion → Text → EvaluationContext
unfolding city_class_value
evaluation_context request policy claimant_name = record {
  params = policy.payload;
  city_class = city_class_value request.city_class;
  trip_from = request.from_date;
  trip_to = request.to_date;
  claimant_name = claimant_name;
  entertainment_attendees = [];
  entertainment_prior_approval = false;
  meals_claimed_by_date = [];
}

unfoldable pub draft_context : TravelRequest → Text → DraftContext
draft_context request claimant_name = record {
  claimant_name = claimant_name;
  company_name = some (codes "Nortex Industries Ltd");
  visiting_company = request.visiting_company;
  note = none;
}

-- `scalar_one`
unfoldable pub claimant_of : Option Employee → Result TripError Employee
claimant_of none = err no_claimant
claimant_of (some employee) = ok employee

unfoldable pub as_built : Result PipelineError BuiltDraft → Result TripError BuiltDraft
as_built (ok built) = ok built
as_built (err e) = err (not_built e)

unfoldable pub build_trip :
    (read : DocumentRow → Reading) (tables : Tables) (versions : List PolicyVersion)
    (advances : List Advance) (withdrawn : List Text) (request : TravelRequest)
    → Result TripError BuiltDraft
unfolding employee_of claimant_of policy_for documents_for advance_for draft_context
    evaluation_context employee_ref build_claim as_built
build_trip read tables versions advances withdrawn request = do
  employee ← claimant_of (employee_of tables request.employee_id)
  policy ← policy_for versions request
  as_built (
      build_claim read (documents_for tables request) (draft_context request employee.name)
        (evaluation_context request policy employee.name) withdrawn (advance_for advances request)
        (employee_ref employee) (map employee_ref tables.employees))
