-- ===== src/Tables.antt =====
-- The tables that the routers read (backend/src/expense_api/db/models.py), and the queries that more
-- than one of them makes. A select that must have one row at most takes the first.
use expense_reimbursement_ta.Prelude.{ℕ, Option, List, find, ◌==◌}
use expense_reimbursement_ta.Prelude.Int.{ℤ}
use expense_reimbursement_ta.Prelude.Text.{Text, text_eq}
use expense_reimbursement_ta.Models.{CityClass, Date, DateTime, DocKind}
use expense_reimbursement_ta.Claims.Rows.{SettlementClaim}
use expense_reimbursement_ta.Evidence.Corrections.{EvidenceDocument}
use expense_reimbursement_ta.Identity.{Employee}

pub record TravelRequest : Type 0 where
  pub id : ℕ
  pub trq_id : Text
  pub employee_id : ℕ
  pub from_date : Date
  pub to_date : Date
  pub destination_city : Text
  pub city_class : CityClass
  pub visiting_company : Option Text
  pub purpose : Text
  pub travel_category : Text
  pub mode_of_travel : Text
  pub cost_centre : Text
  pub advance_requested : Option ℤ
  pub issued_on : Option Date

-- An evidence document, by the columns that the routers read, and its evidence.
pub record DocumentRow : Type 0 where
  pub external_id : Text
  pub travel_request_id : Option ℕ
  pub source_filename : Text
  pub source_path : Option Text
  pub message_id : Option Text
  pub sender : Option Text
  pub subject : Option Text
  pub received_at : Option DateTime
  pub attachment_path : Option Text
  pub doc_kind : DocKind
  pub proof_ref : Text
  pub body_text : Option Text
  pub evidence : EvidenceDocument

pub record Tables : Type 0 where
  pub employees : List Employee
  pub trips : List TravelRequest
  pub claims : List SettlementClaim
  pub documents : List DocumentRow

-- `select(TravelRequest).where(TravelRequest.trq_id == trq_id)`
unfoldable pub trip_of : Tables → Text → Option TravelRequest
trip_of tables trq_id = find (λ t. text_eq t.trq_id trq_id) tables.trips

-- `load_claim`
unfoldable pub load_claim : Tables → ℕ → Option SettlementClaim
load_claim tables travel_request_id =
    find (λ c. c.travel_request_id == travel_request_id) tables.claims

-- `session.get(Employee, id)`
unfoldable pub employee_of : Tables → ℕ → Option Employee
employee_of tables id = find (λ e. e.id == id) tables.employees
