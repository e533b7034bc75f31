-- ===== src/Claims/Pipeline.antt =====
-- claims/pipeline.py: from the documents of a trip to a settled claim. Reading a document (the
-- parser and the extractor) is an argument.
pub mod Money
pub mod Judged
pub mod Collect
pub mod Built
pub mod Trip
use expense_reimbursement_ta.Prelude.{
  ℕ, suc, false, Option, none, some, List, [], ◌∷◌, map, if◌then◌else◌, get_elem?,
}
use expense_reimbursement_ta.Prelude.Dict.{Dict}
use expense_reimbursement_ta.Prelude.Int.{ℤ, pos, ◌-ℤ◌, leb_ℤ}
use expense_reimbursement_ta.Prelude.Text.{Text, is_member}
use expense_reimbursement_ta.Prelude.Result.{Result, ok, err, ◌>>=◌}
use expense_reimbursement_ta.Models.{DocKind, ClaimLineStatus, is_excluded_by_draft}
use expense_reimbursement_ta.Policy.Decision.{LineUnderReview, EvaluationContext}
use expense_reimbursement_ta.Policy.Engine.{LineOutcome, evaluate_lines}
use expense_reimbursement_ta.Policy.Tax.{TaxError, apportion_tax}
use expense_reimbursement_ta.Evidence.Extraction.{ExtractedItem, ExtractionResult}
use expense_reimbursement_ta.Evidence.Dedup.{DedupResult, find_duplicates}
use expense_reimbursement_ta.Approvals.Routing.{
  ChainStep, EmployeeRef, RoutingError, directory_of, resolve_chain,
}
use expense_reimbursement_ta.Claims.Drafting.{DraftContext, DraftLine, draft_line}
use expense_reimbursement_ta.Claims.Summary.{SettlementSummary, SummaryError, summarise}

-- One extracted item with what its document says of it.
pub record Piece : Type 0 where
  pub item : ExtractedItem
  pub tax_share : ℤ
  pub kind : DocKind
  pub proof : Option Text
  pub note : Option Text

pub data PipelineError : Type 0 where
  tax_error : TaxError → PipelineError
  index_error : PipelineError
  summary_error : SummaryError → PipelineError
  routing_error : RoutingError → PipelineError

-- `zip(items, shares, strict=True)`; the shares are as many as the items.
abbrev pub zip : List ExtractedItem → List ℤ → List (ExtractedItem × ℤ)
zip (a ∷ items) (s ∷ shares) = (a, s) ∷ zip items shares
zip _ _ = []

abbrev pub without_tax : List ExtractedItem → List (ExtractedItem × ℤ)
without_tax = map (λ item. (item, pos 0))

unfoldable pub zipped :
    List ExtractedItem → Result TaxError (List ℤ) → Result PipelineError (List (ExtractedItem × ℤ))
zipped items (ok shares) = ok (zip items shares)
zipped items (err e) = err (tax_error e)

-- `_with_tax_shares`
unfoldable pub with_tax_shares : ExtractionResult → Result PipelineError (List (ExtractedItem × ℤ))
unfolding zipped
with_tax_shares result = elim result.stated_subtotal [
  | none ↦ ok (without_tax result.items)
  | some subtotal ↦ elim result.stated_total [
    | none ↦ ok (without_tax result.items)
    | some total ↦
        let tax = total -ℤ subtotal in
        if leb_ℤ tax (pos 0)
        then ok (without_tax result.items)
        else zipped result.items (apportion_tax (map (λ i. i.gross_amount) result.items) tax)
  ]
]

-- The status that a drafted line is preset to: the claimant's withdrawal, or what drafting found.
unfoldable pub preset_of : List Text → DraftLine → Option ClaimLineStatus
preset_of withdrawn drafted =
    if is_member drafted.description withdrawn
    then some ClaimLineStatus.withdrawn
    else if is_excluded_by_draft drafted.status
    then some drafted.status
    else none

unfoldable pub line_of : Piece → DraftLine → LineUnderReview
line_of piece drafted = record {
  head = drafted.head;
  description = drafted.description;
  gross_amount = piece.item.gross_amount;
  paid_by = drafted.paid_by;
  line_date = drafted.line_date;
  tax_share = piece.tax_share;
  nights = drafted.nights;
  proof_ref = piece.proof;
  preset_reason = drafted.status_reason;
}

abbrev preset_at : ℕ → Option ClaimLineStatus → Dict ClaimLineStatus → Dict ClaimLineStatus
preset_at position none presets = presets
preset_at position (some s) presets = (position, s) ∷ presets

-- The `IndexError` of a line that cannot be drafted.
unfoldable pub drafted_or_error : {A : Type 0} → Option A → Result PipelineError A
drafted_or_error none = err index_error
drafted_or_error (some a) = ok a

-- The loop over the items that dedup kept: the lines from `position` on, and their presets. The
-- `source_index` of a drafted line, which the pipeline does not read, is its position here.
unfoldable pub draft_lines :
    (context : DraftContext) (withdrawn : List Text)
    → ℕ
    → List Piece
    → Result PipelineError (List LineUnderReview × Dict ClaimLineStatus)
unfolding preset_of line_of drafted_or_error
draft_lines context withdrawn position [] = ok ([], [])
draft_lines context withdrawn position (piece ∷ pieces) =
    let line_context : DraftContext = record {
      claimant_name = context.claimant_name;
      company_name = context.company_name;
      visiting_company = context.visiting_company;
      note = piece.note;
    } in
    let more = draft_lines context withdrawn (suc position) pieces in
    do
      drafted ← drafted_or_error (draft_line piece.item piece.kind line_context position)
      rest ← more
      ok (line_of piece drafted ∷ rest.0, preset_at position (preset_of withdrawn drafted) rest.1)

-- `items[index]`, `kinds[index]` and so on, of the indices that dedup kept.
unfoldable pub pieces_at : List Piece → List ℕ → List Piece
pieces_at pieces [] = []
pieces_at pieces (i ∷ kept) = elim (get_elem? pieces i) [
  | none ↦ pieces_at pieces kept
  | some piece ↦ piece ∷ pieces_at pieces kept
]

pub record SettledDraft : Type 0 where
  pub outcomes : List LineOutcome
  pub summary : SettlementSummary
  pub chain : List ChainStep
  pub dedup : DedupResult

unfoldable pub summed :
    Result SummaryError SettlementSummary → Result PipelineError SettlementSummary
summed (ok s) = ok s
summed (err e) = err (summary_error e)

unfoldable pub routed : Result RoutingError (List ChainStep) → Result PipelineError (List ChainStep)
routed (ok c) = ok c
routed (err e) = err (routing_error e)

-- `build_claim` from the point where every document has been read.
unfoldable pub settle_pieces :
    (context : DraftContext) (evaluation : EvaluationContext) (withdrawn : List Text)
    (advance_drawn : ℤ) (claimant : EmployeeRef) (people : List EmployeeRef)
    → List Piece
    → Result PipelineError SettledDraft
unfolding pieces_at draft_lines summed routed
settle_pieces context evaluation withdrawn advance_drawn claimant people pieces =
    let dedup = find_duplicates (map (λ p. p.item) pieces) in
    do
      (lines, presets) ← draft_lines context withdrawn 0 (pieces_at pieces dedup.kept)
      let outcomes = evaluate_lines lines evaluation presets
      summary ← summed (summarise outcomes advance_drawn)
      chain ← routed (
          resolve_chain summary.net_reimbursable claimant (directory_of people) evaluation.params
            false)
      let settled : SettledDraft = record {
        outcomes = outcomes;
        summary = summary;
        chain = chain;
        dedup = dedup;
      }
      ok settled
