-- ===== src/Claims/Pipeline/Collect.antt =====
-- The loop of `build_claim` (claims/pipeline.py) over the documents of a trip, and the whole of it.
-- What parsing a mail and extracting from it give is an argument, `read`; a document with figures
-- that were typed in is not read.

pub mod Items
pub mod Accounted
pub mod Stays
use expense_reimbursement_ta.Prelude.{
  ℕ, Bool, true, false, not, Option, some, List, [], ◌∷◌, ◌++◌, map, ◌==◌, if◌then◌else◌,
}
use expense_reimbursement_ta.Prelude.Int.{ℤ}
use expense_reimbursement_ta.Prelude.Result.{Result, ok, ◌>>=◌}
use expense_reimbursement_ta.Prelude.Text.{Text, text_eq}
use expense_reimbursement_ta.Models.{Date, DocKind, ExtractionStatus}
use expense_reimbursement_ta.Policy.Decision.{EvaluationContext}
use expense_reimbursement_ta.Approvals.Routing.{EmployeeRef}
use expense_reimbursement_ta.Claims.Drafting.{DraftContext, find_coverage_gaps}
use expense_reimbursement_ta.Claims.Pipeline.{
  Piece, PipelineError, SettledDraft, settle_pieces, with_tax_shares,
}
use expense_reimbursement_ta.Evidence.Classify.{produces_claim_lines}
use expense_reimbursement_ta.Evidence.Corrections.{as_result, is_manually_entered}
use expense_reimbursement_ta.Evidence.Extraction.{
  ExtractedItem, ExtractionResult, Message, could_not_read, exception_text,
}
use expense_reimbursement_ta.Tables.{DocumentRow}

-- What parsing and extraction give: the message of a document that cannot be read, or a result.
pub data Reading : Type 0 where
  unreadable : Text → Reading
  extracted : ExtractionResult → Reading

-- Why a document is set aside (`_why_set_aside`).
pub data SetAside : Type 0 where
  promotional_mail payment_failure booking_voucher approval_thread advance_notice not_claimable :
      SetAside

unfoldable pub why_set_aside : DocKind → SetAside
why_set_aside DocKind.promotional = promotional_mail
why_set_aside DocKind.cab_payment_failure = payment_failure
why_set_aside DocKind.hotel_voucher = booking_voucher
why_set_aside DocKind.approval_request = approval_thread
why_set_aside DocKind.approval_grant = approval_thread
why_set_aside DocKind.advance_notice = advance_notice
why_set_aside _ = not_claimable

-- A dict from file names, in insertion order: a write to a key that is there keeps its place.
abbrev pub ByFile : Type 0 → Type 0
ByFile V = List (Text × V)

unfoldable pub put : {V : Type 0} → Text → V → ByFile V → ByFile V
put key v [] = (key, v) ∷ []
put key v ((k, w) ∷ rest) =
    let more = put key v rest in if text_eq key k then (k, v) ∷ rest else (k, w) ∷ more

-- What the loop has gathered. A missing reason stands for "Needs review."
pub record Collected : Type 0 where
  pub pieces : List Piece
  pub stays : List (Date × ℕ)
  pub needs_input : ByFile (Option Message)
  pub set_aside : ByFile SetAside
  pub manually_entered : ByFile (Unit {0})
  pub documents : List DocumentRow

abbrev pub nothing_collected : Collected
nothing_collected = record {
  pieces = [];
  stays = [];
  needs_input = [];
  set_aside = [];
  manually_entered = [];
  documents = [];
}

abbrev pub is_needs_input : ExtractionStatus → Bool
is_needs_input ExtractionStatus.needs_input = true
is_needs_input _ = false

abbrev pub is_invoice : DocKind → Bool
is_invoice DocKind.hotel_invoice = true
is_invoice _ = false

-- The document after the loop has marked it as needing input, or as read.
unfoldable pub marked : ExtractionStatus → Option Message → Option Text → DocumentRow → DocumentRow
marked status reason name document = record document {
  evidence = record {
    extractor_name = name;
    extraction_status = status;
    needs_input_reason = reason;
    line_items = document.evidence.line_items;
  };
}

unfoldable pub piece_of : DocumentRow → ExtractedItem × ℤ → Piece
piece_of document (item, tax_share) = record {
  item = item;
  tax_share = tax_share;
  kind = document.doc_kind;
  proof = some document.proof_ref;
  note = document.body_text;
}

-- The stay that an item of a hotel's invoice shows.
abbrev pub stay_of : Option ℕ → Option Date → List (Date × ℕ)
stay_of (some nights) (some day) = if nights == 0 then [] else (day, nights) ∷ []
stay_of _ _ = []

unfoldable pub stays_of : DocKind → List (ExtractedItem × ℤ) → List (Date × ℕ)
stays_of kind [] = []
stays_of kind ((item, _) ∷ rest) =
    let more = stays_of kind rest in
    if is_invoice kind then stay_of item.nights item.txn_date ++ more else more

-- The items of a document are added behind those that are there.
unfoldable pub added : Collected → DocumentRow → DocumentRow → List (ExtractedItem × ℤ) → Collected
unfolding piece_of stays_of
added acc document left shares = record acc {
  pieces = acc.pieces ++ map (piece_of document) shares;
  stays = acc.stays ++ stays_of document.doc_kind shares;
  documents = acc.documents ++ left ∷ [];
}

-- The document takes no further part, and its reason is shown.
unfoldable pub held : Collected → DocumentRow → Option Message → Option Message → Collected
unfolding put marked
held acc document shown reason = record acc {
  needs_input = put document.source_filename shown acc.needs_input;
  documents =
      acc.documents
      ++ marked ExtractionStatus.needs_input reason document.evidence.extractor_name document ∷ [];
}

unfoldable pub read_by_machine : Collected → DocumentRow → Reading → Result PipelineError Collected
unfolding held with_tax_shares added marked
read_by_machine acc document (unreadable message) =
    ok (held acc document (some (could_not_read message)) (some (exception_text message)))
read_by_machine acc document (extracted result) =
    let left =
      marked ExtractionStatus.extracted document.evidence.needs_input_reason
        (some result.extractor_name) document in
    if is_needs_input result.status
    then ok (held acc document result.needs_input_reason result.needs_input_reason)
    else do shares ← with_tax_shares result; ok (added acc document left shares)

unfoldable pub read_by_hand : Collected → DocumentRow → Result PipelineError Collected
unfolding put with_tax_shares added as_result
read_by_hand acc document = do
  shares ← with_tax_shares (as_result document.evidence)
  ok (
      added (record acc { manually_entered = put document.source_filename tt acc.manually_entered })
        document document shares)

-- One round of the loop.
unfoldable pub visit_document :
    (DocumentRow → Reading) → Collected → DocumentRow → Result PipelineError Collected
unfolding put produces_claim_lines why_set_aside is_manually_entered read_by_hand read_by_machine
visit_document read acc document =
    if not (produces_claim_lines document.doc_kind)
    then ok (record acc {
      set_aside = put document.source_filename (why_set_aside document.doc_kind) acc.set_aside;
      documents = acc.documents ++ document ∷ [];
    })
    else if is_manually_entered document.evidence
    then read_by_hand acc document
    else read_by_machine acc document (read document)

unfoldable pub collect :
    (DocumentRow → Reading) → Collected → List DocumentRow → Result PipelineError Collected
unfolding visit_document
collect read acc [] = ok acc
collect read acc (document ∷ rest) = do
  next ← visit_document read acc document
  collect read next rest

-- `ClaimDraft`
pub record BuiltDraft : Type 0 where
  pub settled : SettledDraft
  pub coverage_gaps : List Date
  pub collected : Collected

unfoldable pub built_of : EvaluationContext → Collected → SettledDraft → BuiltDraft
unfolding find_coverage_gaps
built_of evaluation collected settled = record {
  settled = settled;
  coverage_gaps = find_coverage_gaps evaluation.trip_from evaluation.trip_to collected.stays;
  collected = collected;
}

unfoldable pub build_claim :
    (read : DocumentRow → Reading) (documents : List DocumentRow) (context : DraftContext)
    (evaluation : EvaluationContext) (withdrawn : List Text) (advance_drawn : ℤ)
    (claimant : EmployeeRef) (people : List EmployeeRef)
    → Result PipelineError BuiltDraft
unfolding collect settle_pieces built_of
build_claim read documents context evaluation withdrawn advance_drawn claimant people = do
  collected ← collect read nothing_collected documents
  settled ←
      settle_pieces context evaluation withdrawn advance_drawn claimant people collected.pieces
  ok (built_of evaluation collected settled)
