-- ===== src/Tests/Drafted.antt =====
-- The same two documents as rows of the tables, under two versions of the policy.
use expense_reimbursement_ta.Prelude.{
  ◌≡◌, ap, ◌≤◌, true, none, some, List, [], ◌∷◌, All, is_id, map,
}
use expense_reimbursement_ta.Prelude.Int.{pos, sum, ◌+ℤ◌}
use expense_reimbursement_ta.Prelude.Result.{ok}
use expense_reimbursement_ta.Prelude.Text.{Text, codes, text_ltb}
use expense_reimbursement_ta.Models.{Date}
use expense_reimbursement_ta.Policy.Rev4.{rev4}
use expense_reimbursement_ta.Approvals.Routing.{EmployeeRef}
use expense_reimbursement_ta.Claims.Pipeline.Collect.{build_claim}
use expense_reimbursement_ta.Claims.Pipeline.Trip.{
  city_class_value, claimant_of, policy_for, first_version, latest_version, by_filename,
  file_document, Advance, PolicyVersion, advance_for, as_built, build_trip, documents_for,
  draft_context, employee_ref, evaluation_context,
}
use expense_reimbursement_ta.Claims.Pipeline.Trip.Inputs.{IsTaken, build_trip_sound}
use expense_reimbursement_ta.Claims.Pipeline.Trip.Version.{IsOneOf, IsPassed}
use expense_reimbursement_ta.Identity.{Employee}
use expense_reimbursement_ta.Tables.{Tables, employee_of}
use expense_reimbursement_ta.Tests.Built.{built, builds, read, receipt, sale}
use expense_reimbursement_ta.Tests.Desk.{employee, trip}
use expense_reimbursement_ta.Tests.Trip.{asha, ravi, meera, dev}

abbrev version : Text → Date → PolicyVersion
version revision effective_from = record {
  document_id = codes "NTX-TR";
  revision = revision;
  effective_from = effective_from;
  effective_to = none;
  payload = rev4;
}

abbrev versions : List PolicyVersion
versions = version (codes "Rev 4") 50 ∷ version (codes "Rev 5") 101 ∷ []

abbrev advances : List Advance
advances =
    record { travel_request_id = 7; reference = codes "A1"; amount = pos 10000; disbursed_on = 99 }
    ∷ record { travel_request_id = 8; reference = codes "A2"; amount = pos 500; disbursed_on = 99 }
    ∷ []

abbrev row_of : EmployeeRef → Employee
row_of person = employee 1 person.emp_code person.name person.role person.reporting_manager_code

abbrev rows : Tables
rows = record {
  employees = row_of asha ∷ row_of ravi ∷ row_of meera ∷ row_of dev ∷ [];
  trips = trip ∷ [];
  claims = [];
  documents = sale ∷ receipt ∷ [];
}

trip_builds : build_trip read rows versions advances [] trip ≡ ok built
unfolding build_trip as_built employee_of claimant_of policy_for first_version latest_version
    documents_for by_filename file_document text_ltb advance_for sum ◌+ℤ◌ draft_context
    evaluation_context city_class_value employee_ref
trip_builds = ap as_built builds

build_trip_sound_example :
    (e : Employee) × (policy : PolicyVersion) × (employee_of rows 1 ≡ some e)
    × IsOneOf versions policy
    × (policy.effective_from ≤ 100)
    × All (IsPassed 100 policy) versions
    × All (λ d. is_id d.travel_request_id 7 ≡ true) (documents_for rows trip)
    × All (IsTaken 7 (documents_for rows trip)) rows.documents
    × (build_claim read
          (documents_for rows trip)
          (draft_context trip e.name)
          (evaluation_context trip policy e.name)
          []
          (advance_for advances trip)
          (employee_ref e)
          (map employee_ref rows.employees)
        ≡ ok built)
build_trip_sound_example = build_trip_sound read rows versions advances [] trip built trip_builds
