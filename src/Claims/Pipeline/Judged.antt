-- ===== src/Claims/Pipeline/Judged.antt =====
-- Which lines claims/pipeline.py has judged: those of the items that dedup leaves.
use expense_reimbursement_ta.Prelude.{
  ℕ, zero, suc, ◌≡◌, refl, sym, ap, ◌∙◌, subst, false, some, List, [], ◌∷◌, map, get_elem?,
  Option-cases, inl, inr, map_some, map_some_inv,
}
use expense_reimbursement_ta.Prelude.Dict.{Dict}
use expense_reimbursement_ta.Prelude.Int.{ℤ}
use expense_reimbursement_ta.Prelude.Result.{ok, ok_inj, bind_ok}
use expense_reimbursement_ta.Prelude.Text.{Text}
use expense_reimbursement_ta.Models.{ClaimLineStatus}
use expense_reimbursement_ta.Policy.Decision.{EvaluationContext, LineUnderReview}
use expense_reimbursement_ta.Policy.Engine.{LineOutcome, evaluate_lines}
use expense_reimbursement_ta.Policy.Engine.Lines.{evaluate_lines-lines}
use expense_reimbursement_ta.Approvals.Routing.{EmployeeRef, directory_of, resolve_chain}
use expense_reimbursement_ta.Claims.Drafting.{
  DraftContext, DraftLine, classify_head, draft_line, drafted_as,
}
use expense_reimbursement_ta.Claims.Summary.{summarise}
use expense_reimbursement_ta.Claims.Pipeline.{
  Piece, SettledDraft, draft_lines, drafted_or_error, line_of, pieces_at, routed, settle_pieces,
  summed,
}
use expense_reimbursement_ta.Claims.Pipeline.Money.{drafted_ok}
use expense_reimbursement_ta.Evidence.Dedup.{filter_out, find_duplicates, items_at}
use expense_reimbursement_ta.Evidence.Extraction.{ExtractedItem}

-- What an item says it was for, and its gross amount; and the same of a line.
abbrev pub said_by_item : ExtractedItem → Text × ℤ
said_by_item item = (item.description, item.gross_amount)

abbrev pub said_by_line : LineUnderReview → Text × ℤ
said_by_line line = (line.description, line.gross_amount)

draft_line-description :
    (piece : Piece) (context : DraftContext) (position : ℕ) (drafted : DraftLine)
    → draft_line piece.item piece.kind context position ≡ some drafted
    → piece.item.description ≡ drafted.description
unfolding draft_line drafted_as
draft_line-description piece context position drafted e =
    let (head, _, same) =
      map_some_inv (drafted_as piece.item context position)
        (classify_head piece.kind piece.item.description context) drafted e in
    ap (λ d. d.description) same

module _ (context : DraftContext) (withdrawn : List Text) where
  -- Each line is drafted of its piece.
  draft_lines-said :
      (position : ℕ) (pieces : List Piece) (lines : List LineUnderReview)
      (presets : Dict ClaimLineStatus)
      → draft_lines context withdrawn position pieces ≡ ok (lines, presets)
      → map said_by_line lines ≡ map (λ p. said_by_item p.item) pieces
  unfolding draft_lines line_of
  draft_lines-said position [] lines presets e =
      subst (λ t. map said_by_line t.0 ≡ []) (ok_inj e) refl
  draft_lines-said position (piece ∷ pieces) lines presets e =
      let line_context : DraftContext = record {
        claimant_name = context.claimant_name;
        company_name = context.company_name;
        visiting_company = context.visiting_company;
        note = piece.note;
      } in
      let draft = draft_line piece.item piece.kind line_context position in
      let (drafted, found, e2) = bind_ok (drafted_or_error draft) _ (lines, presets) e in
      let (rest, more, e3) =
        bind_ok (draft_lines context withdrawn (suc position) pieces) _ (lines, presets) e2 in
      let later = draft_lines-said (suc position) pieces rest.0 rest.1 more in
      let words =
        draft_line-description piece line_context position drafted
          (drafted_ok draft drafted found) in
      subst (λ t. map said_by_line t.0 ≡ map (λ p. said_by_item p.item) (piece ∷ pieces))
        (ok_inj e3)
        (ap (λ w. (w, piece.item.gross_amount) ∷ map said_by_line rest.0) (sym words)
          ∙ ap (λ xs. said_by_item piece.item ∷ xs) later)

get_elem?-items :
    (pieces : List Piece) (i : ℕ)
    → get_elem? (map (λ p. p.item) pieces) i ≡ map_some (λ (p : Piece). p.item) (get_elem? pieces i)
get_elem?-items [] zero = refl
get_elem?-items [] (suc i) = refl
get_elem?-items (p ∷ pieces) zero = refl
get_elem?-items (p ∷ pieces) (suc i) = get_elem?-items pieces i

-- The items of the pieces at some indices are the items at those indices.
pieces_at-items :
    (pieces : List Piece) (kept : List ℕ)
    → map (λ p. p.item) (pieces_at pieces kept) ≡ items_at (map (λ p. p.item) pieces) kept
unfolding pieces_at items_at
pieces_at-items pieces [] = refl
pieces_at-items pieces (i ∷ kept) =
    let more = pieces_at-items pieces kept in
    let at = get_elem?-items pieces i in
    elim (Option-cases (get_elem? pieces i)) [
      | inl a ↦ let x = rw a at at in rw (pieces_at, items_at, a, x) more
      | inr (p, a) ↦
          let x = rw a at at in rw (pieces_at, items_at, a, x) (ap (λ xs. p.item ∷ xs) more)
    ]

map_said :
    (pieces : List Piece)
    → map (λ p. said_by_item p.item) pieces ≡ map said_by_item (map (λ p. p.item) pieces)
map_said [] = refl
map_said (p ∷ pieces) = ap (λ xs. said_by_item p.item ∷ xs) (map_said pieces)

map_outcomes :
    (outcomes : List LineOutcome)
    → map (λ o. said_by_line o.line) outcomes ≡ map said_by_line (map (λ o. o.line) outcomes)
map_outcomes [] = refl
map_outcomes (o ∷ outcomes) = ap (λ xs. said_by_line o.line ∷ xs) (map_outcomes outcomes)

-- The judged lines are, in order, those of the items that survive dedup: their descriptions and gross
-- amounts are those of the items.
pub settle_pieces_judges :
    (context : DraftContext) (evaluation : EvaluationContext) (withdrawn : List Text)
    (advance_drawn : ℤ) (claimant : EmployeeRef) (people : List EmployeeRef) (pieces : List Piece)
    (draft : SettledDraft)
    → settle_pieces context evaluation withdrawn advance_drawn claimant people pieces ≡ ok draft
    → (draft.dedup ≡ find_duplicates (map (λ p. p.item) pieces))
      × (map (λ o. said_by_line o.line) draft.outcomes
          ≡ map said_by_item (filter_out (map (λ p. p.item) pieces) draft.dedup))
unfolding settle_pieces filter_out
settle_pieces_judges context evaluation withdrawn advance_drawn claimant people pieces draft e =
    let items = map (λ p. p.item) pieces in
    let dedup = find_duplicates items in
    let kept = pieces_at pieces dedup.kept in
    let ((lines, presets), drafted, e2) =
      bind_ok (draft_lines context withdrawn 0 kept) _ draft e in
    let outcomes = evaluate_lines lines evaluation presets in
    let (summary, settled, e3) = bind_ok (summed (summarise outcomes advance_drawn)) _ draft e2 in
    let (chain, resolved, e4) =
      bind_ok
        (routed (
          resolve_chain summary.net_reimbursable claimant (directory_of people) evaluation.params
            false))
        _ draft e3 in
    let judged : map (λ o. said_by_line o.line) outcomes
        ≡ map said_by_item (items_at items dedup.kept) =
      map_outcomes outcomes
      ∙ ap (map said_by_line) (evaluate_lines-lines lines evaluation presets)
      ∙ draft_lines-said context withdrawn 0 kept lines presets drafted
      ∙ map_said kept
      ∙ ap (map said_by_item) (pieces_at-items pieces dedup.kept) in
    subst
      (λ d.
        (d.dedup ≡ dedup)
        × (map (λ o. said_by_line o.line) d.outcomes ≡ map said_by_item (filter_out items d.dedup)))
      (ok_inj e4) (refl, judged)
