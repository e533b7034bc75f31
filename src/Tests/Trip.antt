-- ===== src/Tests/Trip.antt =====
-- A trip: its evaluation context, its lines, its people and its documents.
use expense_reimbursement_ta.Prelude.{ℕ, false, Option, none, some, List, [], ◌∷◌}
use expense_reimbursement_ta.Prelude.Int.{pos}
use expense_reimbursement_ta.Prelude.Dict.{Dict}
use expense_reimbursement_ta.Prelude.Text.{Text, codes}
use expense_reimbursement_ta.Models.{DateTime, Role, PaidBy, ExpenseHead, DocKind, ClaimLineStatus}
use expense_reimbursement_ta.Policy.Decision.{EvaluationContext, LineUnderReview}
use expense_reimbursement_ta.Policy.Rev4.{rev4}
use expense_reimbursement_ta.Approvals.Routing.{EmployeeRef}
use expense_reimbursement_ta.Evidence.Extraction.{ExtractedItem}
use expense_reimbursement_ta.Claims.Drafting.{DraftContext}
use expense_reimbursement_ta.Claims.Pipeline.{Piece}

abbrev pub evaluation : EvaluationContext
evaluation = record {
  params = rev4;
  city_class = codes "Tier 2";
  trip_from = 100;
  trip_to = 104;
  claimant_name = codes "Asha Rao";
  entertainment_attendees = [];
  entertainment_prior_approval = false;
  meals_claimed_by_date = [];
}

abbrev pub meal : ℕ → LineUnderReview
meal paise = record {
  head = ExpenseHead.meals;
  description = codes "lunch";
  gross_amount = pos paise;
  paid_by = PaidBy.employee;
  line_date = some 101;
  tax_share = pos 0;
  nights = none;
  proof_ref = some (codes "bill");
  preset_reason = none;
}

abbrev pub laundry : LineUnderReview
laundry = record {
  head = ExpenseHead.misc;
  description = codes "Laundry";
  gross_amount = pos 50000;
  paid_by = PaidBy.employee;
  line_date = some 102;
  tax_share = pos 6000;
  nights = none;
  proof_ref = some (codes "folio");
  preset_reason = none;
}

-- Two meals of one day, together over the cap, with the laundry between them.
abbrev pub lines : List LineUnderReview
lines = meal 70000 ∷ laundry ∷ meal 60000 ∷ []

abbrev pub presets : Dict ClaimLineStatus
presets = []

abbrev pub person : Text → Role → Option Text → EmployeeRef
person code role manager = record {
  emp_code = code;
  name = code;
  role = role;
  reporting_manager_code = manager;
}

abbrev pub asha : EmployeeRef
asha = record (person (codes "E1") Role.employee (some (codes "E2"))) { name = codes "Asha Rao" }

abbrev pub ravi : EmployeeRef
ravi = person (codes "E2") Role.reporting_manager (some (codes "E3"))

abbrev pub meera : EmployeeRef
meera = person (codes "E3") Role.head_of_department none

abbrev pub dev : EmployeeRef
dev = person (codes "F1") Role.finance none

abbrev pub people : List EmployeeRef
people = asha ∷ ravi ∷ meera ∷ dev ∷ []

abbrev pub now : DateTime
now = record { day = 120; second = 3600 }

abbrev pub item : ℕ → ℕ → ExtractedItem
item day paise = record {
  gross_amount = pos paise;
  description = codes "cab";
  merchant = some (codes "Uber");
  txn_date = some day;
  txn_datetime = none;
  tax_amount = none;
  payment_method = some (codes "Personal UPI");
  payer_name = some (codes "Asha");
  bill_no = some (codes "B1");
  nights = none;
}

abbrev pub cab : ℕ → ℕ → Piece
cab day paise = record {
  item = item day paise;
  tax_share = pos 0;
  kind = DocKind.cab_receipt;
  proof = some (codes "mail");
  note = none;
}

abbrev pub drafting : DraftContext
drafting = record {
  claimant_name = codes "Asha Rao";
  company_name = some (codes "Nortex Industries Ltd");
  visiting_company = none;
  note = none;
}
