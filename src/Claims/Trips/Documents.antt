-- ===== src/Claims/Trips/Documents.antt =====
-- claims/router.py: the documents of a trip. A handler returns the documents that it leaves. The rows
-- of a correction get ids from `next` on.
pub mod Corrected
use expense_reimbursement_ta.Prelude.{
  ℕ, Bool, not, ◌&&◌, Option, none, some, List, [], ◌∷◌, map, filter, find, ◌==◌, is_id,
  if◌then◌else◌, is_none, is_some,
}
use expense_reimbursement_ta.Prelude.Int.{ℤ, eqb_ℤ, sum}
use expense_reimbursement_ta.Prelude.Result.{Result, ok, err, ◌>>=◌}
use expense_reimbursement_ta.Prelude.Text.{Text, codes, is_empty, strip, text_eq}
use expense_reimbursement_ta.Models.{Date, DocKind, ExtractionStatus, PaidBy, claim_draft}
use expense_reimbursement_ta.Claims.Rows.{SettlementClaim}
use expense_reimbursement_ta.Claims.Trips.{require_own_draft, require_visible_trip}
use expense_reimbursement_ta.Evidence.Classify.{produces_claim_lines}
use expense_reimbursement_ta.Evidence.Corrections.{apply, is_correctable, names_a_human}
use expense_reimbursement_ta.Evidence.Extraction.{ExtractedItem}
use expense_reimbursement_ta.Evidence.Uploads.{Rejection, is_declarable}
use expense_reimbursement_ta.Http.{
  HttpError, http_error, already_read, no_such_document, not_claimable, not_removable,
  total_mismatch, unknown_document_kind, unsupported_document_kind, upload_rejected,
}
use expense_reimbursement_ta.Identity.{Employee}
use expense_reimbursement_ta.Tables.{DocumentRow, Tables, TravelRequest, load_claim}

-- The values of the kinds.
abbrev pub kind_values : List (Text × DocKind)
kind_values =
    (codes "approval_request", DocKind.approval_request)
    ∷ (codes "approval_grant", DocKind.approval_grant)
    ∷ (codes "advance_notice", DocKind.advance_notice)
    ∷ (codes "flight_booking", DocKind.flight_booking)
    ∷ (codes "hotel_voucher", DocKind.hotel_voucher)
    ∷ (codes "hotel_invoice", DocKind.hotel_invoice)
    ∷ (codes "cab_receipt", DocKind.cab_receipt)
    ∷ (codes "restaurant_bill", DocKind.restaurant_bill)
    ∷ (codes "third_party_forward", DocKind.third_party_forward)
    ∷ (codes "cab_payment_failure", DocKind.cab_payment_failure)
    ∷ (codes "promotional", DocKind.promotional)
    ∷ (codes "unknown", DocKind.unknown)
    ∷ []

-- `DocKind(raw)`
unfoldable pub kind_of : Text → List (Text × DocKind) → Option DocKind
kind_of raw [] = none
kind_of raw ((value, kind) ∷ rest) =
    let more = kind_of raw rest in if text_eq raw value then some kind else more

unfoldable pub declared : Text → Option DocKind → Result HttpError (Option DocKind)
unfolding is_declarable
declared raw none = err (http_error 422 (unknown_document_kind raw))
declared raw (some kind) =
    if not (is_declarable kind)
    then err (http_error 422 (unsupported_document_kind kind))
    else ok (some kind)

-- `_declared_kind`
unfoldable pub declared_kind : Option Text → Result HttpError (Option DocKind)
unfolding kind_of declared
declared_kind none = ok none
declared_kind (some raw) = if is_empty raw then ok none else declared raw (kind_of raw kind_values)

unfoldable pub belongs_to : TravelRequest → DocumentRow → Bool
belongs_to request document = is_id document.travel_request_id request.id

-- The document that a route names: by its external id, within the trip.
unfoldable pub is_named : Text → TravelRequest → DocumentRow → Bool
unfolding belongs_to
is_named external_id request document =
    text_eq document.external_id external_id && belongs_to request document

unfoldable pub found_document : Option DocumentRow → Result HttpError DocumentRow
found_document none = err (http_error 404 no_such_document)
found_document (some document) = ok document

-- Only the claimant can correct anything, and only while the claim is a draft.
unfoldable pub is_editable : Option SettlementClaim → TravelRequest → Employee → Bool
is_editable none request user = request.employee_id == user.id
is_editable (some claim) request user = claim_draft claim.status && request.employee_id == user.id

pub record UploadedDocumentResponse : Type 0 where
  pub external_id : Text
  pub source_filename : Text
  pub doc_kind : DocKind
  pub proof_ref : Text
  pub extraction_status : ExtractionStatus
  pub uploaded : Bool
  pub manually_entered : Bool
  pub correctable : Bool

unfoldable pub document_response : Bool → DocumentRow → UploadedDocumentResponse
unfolding produces_claim_lines is_correctable names_a_human
document_response editable document = record {
  external_id = document.external_id;
  source_filename = document.source_filename;
  doc_kind = document.doc_kind;
  proof_ref = document.proof_ref;
  extraction_status = document.evidence.extraction_status;
  uploaded = is_some document.source_path;
  manually_entered = names_a_human document.evidence;
  correctable =
      editable && produces_claim_lines document.doc_kind && is_correctable document.evidence;
}

-- The documents of the trip; their order by file name is left out.
unfoldable pub list_documents :
    Tables → Text → Employee → Result HttpError (List UploadedDocumentResponse)
unfolding require_visible_trip load_claim is_editable belongs_to document_response
list_documents tables trq_id user = do
  request ← require_visible_trip tables trq_id user
  let editable = is_editable (load_claim tables request.id) request user
  ok (map (document_response editable) (filter (belongs_to request) tables.documents))

-- The `ClaimEvent` of a removed upload (`delete_upload` of evidence/uploads.py).
pub record UploadRemoved : Type 0 where
  pub travel_request_id : Option ℕ
  pub file : Text
  pub proof_ref : Text

-- The list without the first that passes a test.
unfoldable pub without_first : (DocumentRow → Bool) → List DocumentRow → List DocumentRow
without_first p [] = []
without_first p (x ∷ xs) = let rest = without_first p xs in if p x then xs else x ∷ rest

unfoldable pub require_upload : DocumentRow → Result HttpError (Unit {0})
require_upload document =
    if is_none document.source_path then err (http_error 409 not_removable) else ok tt

unfoldable pub remove_document :
    Tables → Text → Text → Employee → Result HttpError (List DocumentRow × UploadRemoved)
unfolding require_own_draft is_named found_document require_upload without_first
remove_document tables trq_id external_id user = do
  request ← require_own_draft tables trq_id user
  document ← found_document (find (is_named external_id request) tables.documents)
  removable ← require_upload document
  let event : UploadRemoved = record {
    travel_request_id = document.travel_request_id;
    file = document.source_filename;
    proof_ref = document.proof_ref;
  }
  ok (without_first (is_named external_id request) tables.documents, event)

unfoldable pub upload_answered : Result Rejection DocumentRow → Result HttpError DocumentRow
upload_answered (ok document) = ok document
upload_answered (err reason) = err (http_error 422 upload_rejected)

-- `store` is `store_upload` with what it reads from the file system, of the trip and the declared
-- kind.
unfoldable pub upload_document :
    (store : TravelRequest → Option DocKind → Result Rejection DocumentRow) (tables : Tables)
    (trq_id : Text) (doc_kind : Option Text) (user : Employee)
    → Result HttpError DocumentRow
unfolding require_own_draft declared_kind upload_answered
upload_document store tables trq_id doc_kind user = do
  request ← require_own_draft tables trq_id user
  kind ← declared_kind doc_kind
  upload_answered (store request kind)

pub record CorrectedLineRequest : Type 0 where
  pub description : Text
  pub gross_amount : ℤ
  pub txn_date : Date
  pub merchant : Option Text
  pub bill_no : Option Text
  pub tax_amount : Option ℤ
  pub nights : Option ℕ
  pub paid_by : PaidBy

pub record CorrectDocumentRequest : Type 0 where
  pub lines : List CorrectedLineRequest
  pub stated_total : Option ℤ

-- `total_mismatch`, by the two totals that its message quotes.
unfoldable pub require_total : CorrectDocumentRequest → Result HttpError (Unit {0})
unfolding sum
require_total payload = elim payload.stated_total [
  | none ↦ ok tt
  | some stated ↦
      let entered = sum (map (λ l. l.gross_amount) payload.lines) in
      if eqb_ℤ entered stated then ok tt else err (http_error 422 (total_mismatch entered stated))
]

-- `(text or "").strip() or None`
abbrev stripped : Option Text → Option Text
stripped none = none
stripped (some t) = if is_empty (strip t) then none else some (strip t)

abbrev method : PaidBy → Text
method PaidBy.company = codes "Corporate card"
method PaidBy.employee = codes "Personal card"

-- `_entered_item`
unfoldable pub entered_item : CorrectedLineRequest → ExtractedItem
unfolding strip
entered_item line = record {
  gross_amount = line.gross_amount;
  description = strip line.description;
  merchant = stripped line.merchant;
  txn_date = some line.txn_date;
  txn_datetime = none;
  tax_amount = line.tax_amount;
  payment_method = some (method line.paid_by);
  payer_name = none;
  bill_no = stripped line.bill_no;
  nights = line.nights;
}

-- The `ClaimEvent` of a correction, with the figures as they were submitted.
pub record DocumentCorrected : Type 0 where
  pub travel_request_id : ℕ
  pub actor_employee_id : ℕ
  pub source_filename : Text
  pub proof_ref : Text
  pub stated_total : Option ℤ
  pub lines : List CorrectedLineRequest

unfoldable pub require_claimable : DocumentRow → Result HttpError (Unit {0})
unfolding produces_claim_lines
require_claimable document =
    if not (produces_claim_lines document.doc_kind)
    then err (http_error 409 not_claimable)
    else ok tt

unfoldable pub require_correctable : DocumentRow → Result HttpError (Unit {0})
unfolding is_correctable
require_correctable document =
    if not (is_correctable document.evidence) then err (http_error 409 already_read) else ok tt

-- The document with the entered lines in place of its own.
unfoldable pub corrected : ℕ → CorrectDocumentRequest → DocumentRow → DocumentRow
unfolding apply entered_item
corrected next payload document = record document {
  evidence = apply next document.evidence (map entered_item payload.lines);
}

-- The corrected document and the event; the draft that is recomputed on the way out is left out.
unfoldable pub correct_document :
    (tables : Tables) (trq_id external_id : Text) (next : ℕ) (payload : CorrectDocumentRequest)
    (user : Employee)
    → Result HttpError (DocumentRow × DocumentCorrected)
unfolding require_own_draft is_named found_document require_claimable require_total
    require_correctable corrected
correct_document tables trq_id external_id next payload user = do
  request ← require_own_draft tables trq_id user
  document ← found_document (find (is_named external_id request) tables.documents)
  claimable ← require_claimable document
  totals ← require_total payload
  open_to_correction ← require_correctable document
  let event : DocumentCorrected = record {
    travel_request_id = request.id;
    actor_employee_id = user.id;
    source_filename = document.source_filename;
    proof_ref = document.proof_ref;
    stated_total = payload.stated_total;
    lines = payload.lines;
  }
  ok (corrected next payload document, event)
