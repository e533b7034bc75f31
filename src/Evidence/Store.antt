-- ===== src/Evidence/Store.antt =====
-- evidence/store.py: a directory of mails taken in as documents. The names of the directory come
-- sorted, parsing and classification are arguments, and a row's external id is made of its name.
pub mod Again
use expense_reimbursement_ta.Prelude.{
  ℕ, Bool, false, not, ◌&&◌, Option, none, some, List, [], ◌∷◌, ◌++◌, if◌then◌else◌,
}
use expense_reimbursement_ta.Prelude.Text.{Text, is_empty, is_member}
use expense_reimbursement_ta.Models.{DateTime, DocKind, ExtractionStatus}
use expense_reimbursement_ta.Evidence.Classify.{produces_claim_lines}
use expense_reimbursement_ta.Tables.{DocumentRow}

-- `ParsedEmail` (evidence/ingest.py), by the fields that the store reads.
pub record ParsedEmail : Type 0 where
  pub source_filename : Text
  pub message_id : Option Text
  pub sender_email : Option Text
  pub subject : Option Text
  pub received_at : Option DateTime
  pub body_text : Text
  pub attachment_path : Option Text
  pub proof_ref : Text

-- What `parse_eml` gives or raises.
pub data Parsing : Type 0 where
  parsed : ParsedEmail → Parsing
  failed : Text → Parsing

unfoldable pub to_document : Text → ParsedEmail → DocKind → Option ℕ → Option Text → DocumentRow
unfolding produces_claim_lines
to_document external_id mail kind travel_request_id source_path = record {
  external_id = external_id;
  travel_request_id = travel_request_id;
  source_filename = mail.source_filename;
  source_path = source_path;
  message_id = mail.message_id;
  sender = mail.sender_email;
  subject = mail.subject;
  received_at = mail.received_at;
  attachment_path = mail.attachment_path;
  doc_kind = kind;
  proof_ref = mail.proof_ref;
  body_text = some mail.body_text;
  evidence = record {
    extractor_name = none;
    extraction_status =
        if produces_claim_lines kind
        then ExtractionStatus.pending
        else ExtractionStatus.not_applicable;
    needs_input_reason = none;
    line_items = [];
  };
}

-- The report, with the Message-IDs that are known by then.
pub record IngestReport : Type 0 where
  pub existing_ids : List Text
  pub documents : List DocumentRow
  pub skipped_existing : List Text
  pub failures : List (Text × Text)

-- `parsed.message_id and parsed.message_id in existing_ids`
unfoldable pub is_known : Option Text → List Text → Bool
unfolding is_member
is_known none ids = false
is_known (some id) ids = not (is_empty id) && is_member id ids

unfoldable pub with_id : Option Text → List Text → List Text
with_id none ids = ids
with_id (some id) ids = if is_empty id then ids else id ∷ ids

unfoldable pub take_in :
    (ParsedEmail → DocKind) → Option ℕ → Text → IngestReport → Parsing → IngestReport
unfolding is_known with_id to_document
take_in classify trip name report (failed error) = record report {
  failures = report.failures ++ (name, error) ∷ [];
}
take_in classify trip name report (parsed mail) =
    if is_known mail.message_id report.existing_ids
    then record report { skipped_existing = report.skipped_existing ++ name ∷ [] }
    else record report {
      existing_ids = with_id mail.message_id report.existing_ids;
      documents = report.documents ++ to_document name mail (classify mail) trip none ∷ [];
    }

unfoldable pub ingest_from :
    (Text → Parsing) → (ParsedEmail → DocKind) → Option ℕ → IngestReport → List Text → IngestReport
unfolding take_in
ingest_from parse classify trip report [] = report
ingest_from parse classify trip report (name ∷ names) =
    ingest_from parse classify trip (take_in classify trip name report (parse name)) names

abbrev pub empty_report : List Text → IngestReport
empty_report existing_ids = record {
  existing_ids = existing_ids;
  documents = [];
  skipped_existing = [];
  failures = [];
}

unfoldable pub ingest_directory :
    (parse : Text → Parsing) (classify : ParsedEmail → DocKind) (trip : Option ℕ)
    (existing_ids names : List Text)
    → IngestReport
unfolding ingest_from
ingest_directory parse classify trip existing_ids names =
    ingest_from parse classify trip (empty_report existing_ids) names
