-- ===== src/Tests/Trips.antt =====
-- The routes of trips and their documents at concrete inputs.
use expense_reimbursement_ta.Claims.Materialise.{new_claim}
use expense_reimbursement_ta.Claims.Lifecycle.{assert_transition, check_can_submit}
use expense_reimbursement_ta.Prelude.{
  ℕ, zero, suc, ◌≡◌, ◌≢◌, ◌↔◌, refl, false, none, some, List, [], ◌∷◌, ◌++◌, Any, find,
}
use expense_reimbursement_ta.Prelude.Int.{pos}
use expense_reimbursement_ta.Prelude.Result.{ok, err}
use expense_reimbursement_ta.Prelude.Text.{Text, codes, is_member}
use expense_reimbursement_ta.Models.{CityClass, ClaimStatus, DocKind, ExtractionStatus, PaidBy}
use expense_reimbursement_ta.Claims.Materialise.{ClaimDraft, submit, submitted}
use expense_reimbursement_ta.Claims.Rows.{SettlementClaim}
use expense_reimbursement_ta.Claims.Serialisers.{front}
use expense_reimbursement_ta.Claims.Trips.{
  TripSummaryResponse, require_own_draft, require_visible_trip,
}
use expense_reimbursement_ta.Claims.Trips.Access.{IsParty, require_visible_trip_lem}
use expense_reimbursement_ta.Claims.Trips.Apply.{
  CreateTripRequest, Race, RowState, TripCreated, claim_number, create_trip, expired, next_trq_id,
}
use expense_reimbursement_ta.Claims.Trips.Apply.Numbers.{create_trip_fresh}
use expense_reimbursement_ta.Claims.Trips.Documents.{
  CorrectDocumentRequest, CorrectedLineRequest, DocumentCorrected, UploadRemoved, is_named,
  remove_document,
}
use expense_reimbursement_ta.Claims.Trips.Documents.Corrected.{remove_document_sound}
use expense_reimbursement_ta.Claims.Trips.Submission.{Submitted, handed_in, submit_claim}
use expense_reimbursement_ta.Claims.Trips.Submission.Handed.{
  second_submission_refused, submit_claim_sound,
}
use expense_reimbursement_ta.Http.{
  HttpError, http_error, internal_server_error, claim_locked, no_such_trip,
}
use expense_reimbursement_ta.Notifications.{notify_submitted}
use expense_reimbursement_ta.Tables.{DocumentRow, Tables, TravelRequest, load_claim, trip_of}
use expense_reimbursement_ta.Tests.Approvals.{draft, ids, manager_step, waiting}
use expense_reimbursement_ta.Tests.Desk.{claimant, manager, officer, tables, trip}
use expense_reimbursement_ta.Tests.Trip.{now}

abbrev trq : Text
trq = codes "TRQ-2026-0001"

require_visible_trip_lem_example :
    ((request : TravelRequest)
      → (require_visible_trip tables trq manager ≡ ok request)
        ↔ ((trip_of tables trq ≡ some request) × IsParty tables manager request))
    × ((e : HttpError)
        → require_visible_trip tables trq manager ≡ err e
        → e ≡ http_error 404 no_such_trip)
require_visible_trip_lem_example = require_visible_trip_lem tables manager trq

-- Before the submission, with a photographed bill that nothing could read.
abbrev bill : DocumentRow
bill = record {
  external_id = codes "d1";
  travel_request_id = some 7;
  source_filename = codes "bill.png";
  source_path = some (codes "uploads/bill.eml");
  message_id = none;
  sender = none;
  subject = none;
  received_at = none;
  attachment_path = none;
  doc_kind = DocKind.restaurant_bill;
  proof_ref = codes "bill.png";
  body_text = none;
  evidence = record {
    extractor_name = none;
    extraction_status = ExtractionStatus.needs_input;
    needs_input_reason = none;
    line_items = [];
  };
}

abbrev earlier : Tables
earlier = record {
  employees = claimant ∷ manager ∷ officer ∷ [];
  trips = trip ∷ [];
  claims = [];
  documents = bill ∷ [];
}

own : require_own_draft earlier trq claimant ≡ ok trip
unfolding require_own_draft
own = refl

abbrev typed : CorrectedLineRequest
typed = record {
  description = codes "Dinner";
  gross_amount = pos 45000;
  txn_date = 101;
  merchant = some (codes "Cafe");
  bill_no = none;
  tax_amount = none;
  nights = none;
  paid_by = PaidBy.employee;
}

abbrev correction : CorrectDocumentRequest
correction = record { lines = typed ∷ []; stated_total = some (pos 45000) }

abbrev correction_event : DocumentCorrected
correction_event = record {
  travel_request_id = 7;
  actor_employee_id = 1;
  source_filename = codes "bill.png";
  proof_ref = codes "bill.png";
  stated_total = some (pos 45000);
  lines = typed ∷ [];
}

abbrev removal : UploadRemoved
removal = record {
  travel_request_id = some 7;
  file = codes "bill.png";
  proof_ref = codes "bill.png";
}

removes : remove_document earlier trq (codes "d1") claimant ≡ ok ([], removal)
unfolding remove_document
removes = refl

remove_document_sound_example :
    (request : TravelRequest) × (document : DocumentRow) × (before : List DocumentRow)
    × (after : List DocumentRow) × (require_own_draft earlier trq claimant ≡ ok request)
    × (find (is_named (codes "d1") request) earlier.documents ≡ some document)
    × (document.source_path ≢ none)
    × (earlier.documents ≡ before ++ document ∷ after)
    × ([] ≡ before ++ after)
    × (removal.file ≡ document.source_filename)
remove_document_sound_example =
    remove_document_sound earlier trq (codes "d1") claimant [] removal removes

abbrev draft_for : TravelRequest → ClaimDraft
draft_for _ = draft

abbrev handed : Submitted
handed = handed_in earlier trip claimant draft waiting

submits : submit_claim now earlier ids 40 draft_for trq claimant ≡ ok handed
unfolding submit_claim check_can_submit assert_transition
submits = refl

submit_claim_sound_example :
    (request : TravelRequest) × (trip_of earlier trq ≡ some request)
    × (request.employee_id ≡ 1)
    × ((claim : SettlementClaim)
        → load_claim earlier request.id ≡ some claim
        → claim.status ≡ ClaimStatus.draft)
    × (submit now ids 40 draft (load_claim earlier request.id) ≡ ok handed.claim)
    × (handed.claim.status ≡ ClaimStatus.pending_approval)
    × Any (λ n. n.recipient_employee_id ≡ 1) handed.notifications
    × (handed.notifications
        ≡ notify_submitted earlier.employees handed.claim request.trq_id claimant
            (front handed.claim)
            draft.summary.payable)
submit_claim_sound_example =
    submit_claim_sound now earlier ids 40 draft_for trq claimant handed submits

manager_in_front : front handed.claim ≡ some manager_step
unfolding front handed_in submitted new_claim
manager_in_front = refl

trip_there : trip_of earlier trq ≡ some trip
unfolding trip_of
trip_there = refl

trip_still_there : trip_of tables trq ≡ some trip
unfolding trip_of
trip_still_there = refl

claim_stored : load_claim tables 7 ≡ some handed.claim
unfolding load_claim submitted new_claim handed_in
claim_stored = refl

second_submission_refused_example :
    submit_claim now tables ids 40 draft_for trq claimant
    ≡ err (http_error 409 (claim_locked ClaimStatus.pending_approval))
second_submission_refused_example =
    second_submission_refused now earlier ids 40 draft_for trq claimant handed submits now tables
      draft_for trip trip_there trip_still_there claim_stored

abbrev application : CreateTripRequest
application = record {
  destination_city = codes " Pune ";
  from_date = 200;
  to_date = 203;
  year = 2026;
  purpose = codes "Audit";
  city_class = CityClass.tier_2;
  mode_of_travel = codes "Flight";
  visiting_company = none;
  travel_category = none;
  advance_requested = none;
}

abbrev quiet : ℕ → Race
quiet _ = record { reads = codes "TRQ-2026-0041" ∷ []; holds = codes "TRQ-2026-0041" ∷ [] }

abbrev expires : RowState → RowState
expires _ = expired

create_trip_fresh_example :
    (request : TravelRequest) × (event : TripCreated) × (response : TripSummaryResponse)
    × (create_trip expires application claimant 8 120 quiet ≡ ok (request, event, response))
    × (is_member request.trq_id (quiet 0).holds ≡ false)
    × (request.employee_id ≡ claimant.id)
    × (event.trq_id ≡ request.trq_id)
    × (response.trq_id ≡ request.trq_id)
create_trip_fresh_example = create_trip_fresh expires application claimant 8 120 quiet refl

-- Another application takes the number between the first read and its flush; no later one does.
abbrev raced : ℕ → Race
raced zero = record {
  reads = codes "TRQ-2026-0041" ∷ [];
  holds = codes "TRQ-2026-0042" ∷ codes "TRQ-2026-0041" ∷ [];
}
raced (suc _) = record { reads = codes "TRQ-2026-0042" ∷ []; holds = codes "TRQ-2026-0042" ∷ [] }

raced_fails :
    create_trip expires application claimant 8 120 raced
    ≡ err (http_error 500 internal_server_error)
unfolding create_trip claim_number next_trq_id is_member
raced_fails = refl
