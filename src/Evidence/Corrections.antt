-- ===== src/Evidence/Corrections.antt =====
-- evidence/corrections.py: figures that the claimant types in for a document that nothing could
-- read. The rows get ascending ids from `next` on when they are flushed. A row's confidence, raw
-- span and fingerprint are left out.
pub mod Kept
use expense_reimbursement_ta.Prelude.{
  ℕ, suc, Bool, true, false, ◌&&◌, ◌||◌, Option, none, some, List, [], ◌∷◌, map, if◌then◌else◌, ltb,
}
use expense_reimbursement_ta.Prelude.Int.{ℤ}
use expense_reimbursement_ta.Prelude.Text.{Text, codes, is_empty, text_eq}
use expense_reimbursement_ta.Models.{Date, ExtractionStatus}
use expense_reimbursement_ta.Evidence.Extraction.{ExtractedItem, ExtractionResult, Message}

pub record LineItemRow : Type 0 where
  pub id : ℕ
  pub merchant : Option Text
  pub txn_date : Option Date
  pub description : Option Text
  pub gross_amount : ℤ
  pub tax_amount : Option ℤ
  pub nights : Option ℕ
  pub payment_method : Option Text
  pub payer_name : Option Text
  pub bill_no : Option Text

pub record EvidenceDocument : Type 0 where
  pub extractor_name : Option Text
  pub extraction_status : ExtractionStatus
  pub needs_input_reason : Option Message
  pub line_items : List LineItemRow

abbrev pub manual_extractor : Text
manual_extractor = codes "manual"

-- `CORRECTABLE`
unfoldable pub correctable : ExtractionStatus → Bool
correctable ExtractionStatus.needs_input = true
correctable ExtractionStatus.failed = true
correctable ExtractionStatus.pending = true
correctable _ = false

unfoldable pub names_a_human : EvidenceDocument → Bool
names_a_human document = elim document.extractor_name [
  | none ↦ false
  | some name ↦ text_eq name manual_extractor
]

abbrev pub has_rows : List LineItemRow → Bool
has_rows [] = false
has_rows (_ ∷ _) = true

unfoldable pub is_manually_entered : EvidenceDocument → Bool
unfolding names_a_human
is_manually_entered document = names_a_human document && has_rows document.line_items

unfoldable pub is_correctable : EvidenceDocument → Bool
unfolding correctable is_manually_entered
is_correctable document = correctable document.extraction_status || is_manually_entered document

unfoldable pub row_of : ℕ → ExtractedItem → LineItemRow
row_of id item = record {
  id = id;
  merchant = item.merchant;
  txn_date = item.txn_date;
  description = some item.description;
  gross_amount = item.gross_amount;
  tax_amount = item.tax_amount;
  nights = item.nights;
  payment_method = item.payment_method;
  payer_name = none;
  bill_no = item.bill_no;
}

unfoldable pub rows_from : ℕ → List ExtractedItem → List LineItemRow
unfolding row_of
rows_from next [] = []
rows_from next (item ∷ items) = row_of next item ∷ rows_from (suc next) items

unfoldable pub apply : ℕ → EvidenceDocument → List ExtractedItem → EvidenceDocument
unfolding rows_from
apply next document items = record {
  extractor_name = some manual_extractor;
  extraction_status = ExtractionStatus.extracted;
  needs_input_reason = none;
  line_items = rows_from next items;
}

abbrev entered_by_hand : Option Text → Text
entered_by_hand none = codes "Entered by hand"
entered_by_hand (some t) = if is_empty t then codes "Entered by hand" else t

-- `_to_item`
unfoldable pub to_item : LineItemRow → ExtractedItem
to_item row = record {
  gross_amount = row.gross_amount;
  description = entered_by_hand row.description;
  merchant = row.merchant;
  txn_date = row.txn_date;
  txn_datetime = none;
  tax_amount = row.tax_amount;
  payment_method = row.payment_method;
  payer_name = row.payer_name;
  bill_no = row.bill_no;
  nights = row.nights;
}

-- `sorted(…, key=lambda row: row.id)`
unfoldable pub insert_row : LineItemRow → List LineItemRow → List LineItemRow
insert_row r [] = r ∷ []
insert_row r (s ∷ rows) =
    let rest = insert_row r rows in if ltb s.id r.id then s ∷ rest else r ∷ s ∷ rows

unfoldable pub sorted_rows : List LineItemRow → List LineItemRow
unfolding insert_row
sorted_rows [] = []
sorted_rows (r ∷ rows) = insert_row r (sorted_rows rows)

unfoldable pub as_result : EvidenceDocument → ExtractionResult
unfolding sorted_rows to_item
as_result document = record {
  extractor_name = manual_extractor;
  status = ExtractionStatus.extracted;
  items = map to_item (sorted_rows document.line_items);
  stated_subtotal = none;
  stated_total = none;
  reconciliation = none;
  ocr_text = none;
  needs_input_reason = none;
}
