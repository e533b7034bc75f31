-- ===== src/Evidence/Extraction.antt =====
-- evidence/extractors/base.py, and evidence/reconcile.py, the check that it makes on every result.
pub mod Exact
use expense_reimbursement_ta.Prelude.{
  ℕ, Bool, true, false, Option, none, some, List, map, if◌then◌else◌, length, or_else,
}
use expense_reimbursement_ta.Prelude.Int.{ℤ, pos, ◌-ℤ◌, leb_ℤ, ltb_ℤ, abs_ℤ, sum}
use expense_reimbursement_ta.Prelude.Text.{Text}
use expense_reimbursement_ta.Models.{Date, DateTime, ExtractionStatus}

pub record ExtractedItem : Type 0 where
  pub gross_amount : ℤ
  pub description : Text
  pub merchant : Option Text
  pub txn_date : Option Date
  pub txn_datetime : Option DateTime
  pub tax_amount : Option ℤ
  pub payment_method : Option Text
  pub payer_name : Option Text
  pub bill_no : Option Text
  pub nights : Option ℕ

pub data ReconciliationStatus : Type 0 where
  balanced mismatch unverifiable : ReconciliationStatus

-- The messages, by what they quote.
pub data Message : Type 0 where
  no_stated_subtotal : (count : ℕ) (extracted : ℤ) → Message
  reconciles : (count : ℕ) (stated : ℤ) → Message
  could_not_read : Text → Message
  exception_text : Text → Message
  differs : (extracted by : ℤ) (short : Bool) (stated : ℤ) → Message

pub record ReconciliationResult : Type 0 where
  pub status : ReconciliationStatus
  pub extracted_total : ℤ
  pub stated_subtotal : Option ℤ
  pub difference : Option ℤ
  pub message : Message

abbrev pub is_mismatch : ReconciliationStatus → Bool
is_mismatch ReconciliationStatus.mismatch = true
is_mismatch _ = false

unfoldable pub reconcile : List ℤ → Option ℤ → ℤ → ReconciliationResult
reconcile line_amounts none tolerance = record {
  status = ReconciliationStatus.unverifiable;
  extracted_total = sum line_amounts;
  stated_subtotal = none;
  difference = none;
  message = no_stated_subtotal (length line_amounts) (sum line_amounts);
}
reconcile line_amounts (some stated) tolerance =
    let extracted = sum line_amounts in
    let difference = extracted -ℤ stated in
    if leb_ℤ (abs_ℤ difference) tolerance
    then record {
      status = ReconciliationStatus.balanced;
      extracted_total = extracted;
      stated_subtotal = some stated;
      difference = some (pos 0);
      message = reconciles (length line_amounts) stated;
    }
    else record {
      status = ReconciliationStatus.mismatch;
      extracted_total = extracted;
      stated_subtotal = some stated;
      difference = some difference;
      message = differs extracted (abs_ℤ difference) (ltb_ℤ difference (pos 0)) stated;
    }

pub record ExtractionResult : Type 0 where
  pub extractor_name : Text
  pub status : ExtractionStatus
  pub items : List ExtractedItem
  pub stated_subtotal : Option ℤ
  pub stated_total : Option ℤ
  pub reconciliation : Option ReconciliationResult
  pub ocr_text : Option Text
  pub needs_input_reason : Option Message

abbrev pub is_extracted : ExtractionStatus → Bool
is_extracted ExtractionStatus.extracted = true
is_extracted _ = false

-- The property `is_usable`, of a check and of a result.
abbrev pub check_usable : ReconciliationResult → Bool
check_usable check = if is_mismatch check.status then false else true

unfoldable pub is_usable : ExtractionResult → Bool
is_usable result =
    if is_extracted result.status
    then elim result.reconciliation [ none ↦ true | some check ↦ check_usable check ]
    else false

unfoldable pub needs_input :
    Text
    → Message
    → List ExtractedItem
    → Option ReconciliationResult
    → Option Text
    → Option ℤ
    → ExtractionResult
needs_input extractor_name reason items reconciliation ocr_text stated_subtotal = record {
  extractor_name = extractor_name;
  status = ExtractionStatus.needs_input;
  items = items;
  stated_subtotal = stated_subtotal;
  stated_total = none;
  reconciliation = reconciliation;
  ocr_text = ocr_text;
  needs_input_reason = some reason;
}

-- The amounts that the guard sums: the override, or the items' own.
unfoldable pub checked_amounts : List ExtractedItem → Option (List ℤ) → List ℤ
checked_amounts items reconcile_amounts =
    or_else reconcile_amounts (map (λ item. item.gross_amount) items)

unfoldable pub from_items :
    (extractor_name : Text) (items : List ExtractedItem) (stated_subtotal stated_total : Option ℤ)
    (ocr_text : Option Text) (reconcile_amounts : Option (List ℤ))
    → ExtractionResult
unfolding reconcile needs_input checked_amounts
from_items extractor_name items stated_subtotal stated_total ocr_text reconcile_amounts =
    let check = reconcile (checked_amounts items reconcile_amounts) stated_subtotal (pos 0) in
    if is_mismatch check.status
    then needs_input extractor_name check.message items (some check) ocr_text stated_subtotal
    else record {
      extractor_name = extractor_name;
      status = ExtractionStatus.extracted;
      items = items;
      stated_subtotal = stated_subtotal;
      stated_total = stated_total;
      reconciliation = some check;
      ocr_text = ocr_text;
      needs_input_reason = none;
    }
