-- ===== src/Claims/Pipeline/Money.antt =====
-- What the claim that claims/pipeline.py settles comes to.
use expense_reimbursement_ta.Prelude.{
  ℕ, zero, suc, ◌+◌, ◌≡◌, refl, ap, subst, true, false, Option, none, some, List, [], ◌∷◌, map,
  ◌==◌, get_elem?, arith, map_some_inv,
}
use expense_reimbursement_ta.Prelude.Dict.{Dict, lookup}
use expense_reimbursement_ta.Prelude.Int.{ℤ, pos, ◌≤ℤ◌}
use expense_reimbursement_ta.Prelude.Text.{Text}
use expense_reimbursement_ta.Prelude.Result.{Result, ok, err, bind_ok, ok_inj}
use expense_reimbursement_ta.Models.{ClaimLineStatus, PaidBy, paid_by_company, is_excluded_by_draft}
use expense_reimbursement_ta.Policy.Decision.{LineUnderReview, Reason, EvaluationContext}
use expense_reimbursement_ta.Policy.Engine.{evaluate_lines}
use expense_reimbursement_ta.Evidence.Dedup.{find_duplicates}
use expense_reimbursement_ta.Claims.Attribution.{Attribution, attribute, derive_paid_by}
use expense_reimbursement_ta.Claims.Drafting.{
  DraftContext, DraftLine, classify_head, draft_line, draft_status, drafted_as,
}
use expense_reimbursement_ta.Claims.Summary.{SettlementSummary, SummaryError, summarise}
use expense_reimbursement_ta.Claims.Summary.Net.{CompanySetAside, sets_aside, net-eq-allowed_lines}
use expense_reimbursement_ta.Claims.Summary.Settlement.{allowed_sum}
use expense_reimbursement_ta.Approvals.Routing.{
  ChainStep, EmployeeRef, RoutingError, directory_of, resolve_chain,
}
use expense_reimbursement_ta.Claims.Pipeline.{
  Piece, SettledDraft, draft_lines, preset_at, preset_of, settle_pieces, summed, routed,
  drafted_or_error, line_of, pieces_at,
}

-- A line that the company paid is drafted as a memo or as rejected.
draft_status-sets_aside :
    (who : Attribution) (reason : Option Reason) (paid_by : PaidBy)
    → paid_by_company paid_by ≡ true
    → is_excluded_by_draft (draft_status who reason paid_by).0 ≡ true
unfolding draft_status
draft_status-sets_aside who reason paid_by h = ground arith

draft_line-sets_aside :
    (piece : Piece) (context : DraftContext) (position : ℕ) (drafted : DraftLine)
    → draft_line piece.item piece.kind context position ≡ some drafted
    → paid_by_company drafted.paid_by ≡ true
    → is_excluded_by_draft drafted.status ≡ true
unfolding draft_line drafted_as
draft_line-sets_aside piece context position drafted e =
    let (head, _, same) =
      map_some_inv (drafted_as piece.item context position)
        (classify_head piece.kind piece.item.description context) drafted e in
    let who = attribute piece.item.payer_name context.claimant_name in
    let set_aside =
      draft_status-sets_aside who.attribution who.reason
        (derive_paid_by piece.item.payment_method context.company_name) in
    subst (λ d. paid_by_company d.paid_by ≡ true → is_excluded_by_draft d.status ≡ true) same
      set_aside

preset_of-sets_aside :
    (withdrawn : List Text) (drafted : DraftLine)
    → is_excluded_by_draft drafted.status ≡ true
    → sets_aside (preset_of withdrawn drafted) ≡ true
unfolding preset_of
preset_of-sets_aside withdrawn drafted h = ground arith

pub drafted_ok : {A : Type 0} (o : Option A) (a : A) → drafted_or_error o ≡ ok a → o ≡ some a
unfolding drafted_or_error
drafted_ok none a e = cc
drafted_ok (some b) a e = cc

-- The presets of the lines from a position on set each line aside that the company paid.
abbrev SetsAsideFrom : ℕ → List LineUnderReview → Dict ClaimLineStatus → Type 0
SetsAsideFrom position lines presets =
    (i : ℕ) (l : LineUnderReview)
    → get_elem? lines i ≡ some l
    → paid_by_company l.paid_by ≡ true
    → sets_aside (lookup (position + i) presets) ≡ true

lookup-preset_at :
    (position i : ℕ) (p : Option ClaimLineStatus) (presets : Dict ClaimLineStatus)
    → lookup (position + suc i) (preset_at position p presets) ≡ lookup (suc position + i) presets
lookup-preset_at position i none presets =
    let place : position + suc i ≡ suc position + i = omega arith in rw place refl
lookup-preset_at position i (some s) presets =
    let place : position + suc i ≡ suc position + i = omega arith in
    let other : (position == (position + suc i)) ≡ false = ground arith in
    rw other (ap (λ k. lookup k presets) place)

first_preset :
    (position : ℕ) (p : Option ClaimLineStatus) (presets : Dict ClaimLineStatus)
    → sets_aside p ≡ true
    → sets_aside (lookup (position + 0) (preset_at position p presets)) ≡ true
first_preset position none presets h = cc
first_preset position (some s) presets h =
    let own : (position == (position + 0)) ≡ true = ground arith in rw own h

cons-SetsAsideFrom :
    (position : ℕ) (l : LineUnderReview) (lines : List LineUnderReview) (p : Option ClaimLineStatus)
    (presets : Dict ClaimLineStatus)
    → (paid_by_company l.paid_by ≡ true → sets_aside p ≡ true)
    → SetsAsideFrom (suc position) lines presets
    → SetsAsideFrom position (l ∷ lines) (preset_at position p presets)
cons-SetsAsideFrom position l lines p presets first later zero m at company =
    let same : l ≡ m = cc in first_preset position p presets (first (rw (← same) at company))
cons-SetsAsideFrom position l lines p presets first later (suc i) m at company =
    rw (lookup-preset_at position i p presets) (later i m at company)

module _ (context : DraftContext) (withdrawn : List Text) where
  draft_lines-SetsAside :
      (position : ℕ) (pieces : List Piece) (lines : List LineUnderReview)
      (presets : Dict ClaimLineStatus)
      → draft_lines context withdrawn position pieces ≡ ok (lines, presets)
      → SetsAsideFrom position lines presets
  unfolding draft_lines line_of
  draft_lines-SetsAside position [] lines presets e =
      subst (λ t. SetsAsideFrom position t.0 t.1) (ok_inj e) (λ i l at company. let x = at in cc)
  draft_lines-SetsAside position (piece ∷ pieces) lines presets e =
      let line_context : DraftContext = record {
        claimant_name = context.claimant_name;
        company_name = context.company_name;
        visiting_company = context.visiting_company;
        note = piece.note;
      } in
      let draft = draft_line piece.item piece.kind line_context position in
      let (drafted, found, e2) = bind_ok (drafted_or_error draft) _ (lines, presets) e in
      let (rest, more, e3) =
        bind_ok (draft_lines context withdrawn (suc position) pieces) _ (lines, presets) e2 in
      let later = draft_lines-SetsAside (suc position) pieces rest.0 rest.1 more in
      let first = λ (company : paid_by_company drafted.paid_by ≡ true).
        preset_of-sets_aside withdrawn drafted (
          draft_line-sets_aside piece line_context position drafted (drafted_ok draft drafted found)
            company) in
      subst (λ t. SetsAsideFrom position t.0 t.1) (ok_inj e3)
        (cons-SetsAsideFrom position (line_of piece drafted) rest.0 (preset_of withdrawn drafted)
          rest.1 first later)

summed_ok :
    (r : Result SummaryError SettlementSummary) (s : SettlementSummary) → summed r ≡ ok s → r ≡ ok s
unfolding summed
summed_ok (ok x) s e = cc
summed_ok (err x) s e = cc

routed_ok :
    (r : Result RoutingError (List ChainStep)) (c : List ChainStep) → routed r ≡ ok c → r ≡ ok c
unfolding routed
routed_ok (ok x) c e = cc
routed_ok (err x) c e = cc

-- The net amount of a claim that the pipeline settles is the sum of what its lines are allowed, it
-- is not negative, and the chain of the claim is the one that this amount resolves to.
pub settle_pieces_sound :
    (context : DraftContext) (evaluation : EvaluationContext) (withdrawn : List Text)
    (advance_drawn : ℤ) (claimant : EmployeeRef) (people : List EmployeeRef) (pieces : List Piece)
    (draft : SettledDraft)
    → settle_pieces context evaluation withdrawn advance_drawn claimant people pieces ≡ ok draft
    → (draft.summary.net_reimbursable ≡ allowed_sum draft.outcomes)
      × (pos 0 ≤ℤ draft.summary.net_reimbursable)
      × (resolve_chain draft.summary.net_reimbursable claimant
            (directory_of people)
            evaluation.params
            false
          ≡ ok draft.chain)
unfolding settle_pieces
settle_pieces_sound context evaluation withdrawn advance_drawn claimant people pieces draft e =
    let kept = pieces_at pieces (find_duplicates (map (λ p. p.item) pieces)).kept in
    let ((lines, presets), drafted, e2) =
      bind_ok (draft_lines context withdrawn 0 kept) _ draft e in
    let outcomes = evaluate_lines lines evaluation presets in
    let (summary, settled, e3) = bind_ok (summed (summarise outcomes advance_drawn)) _ draft e2 in
    let (chain, resolved, e4) =
      bind_ok
        (routed (
          resolve_chain summary.net_reimbursable claimant (directory_of people) evaluation.params
            false))
        _ draft e3 in
    let aside : CompanySetAside lines presets = λ i l at company.
      let here =
        draft_lines-SetsAside context withdrawn 0 kept lines presets drafted i l at company in
      let place : 0 + i ≡ i = omega arith in rw place at here in
    let (net, nonneg) =
      net-eq-allowed_lines lines presets evaluation advance_drawn summary aside
        (summed_ok (summarise outcomes advance_drawn) summary settled) in
    subst
      (λ d.
        (d.summary.net_reimbursable ≡ allowed_sum d.outcomes)
        × (pos 0 ≤ℤ d.summary.net_reimbursable)
        × (resolve_chain d.summary.net_reimbursable claimant (directory_of people) evaluation.params
              false
            ≡ ok d.chain))
      (ok_inj e4) (net, nonneg, routed_ok _ chain resolved)
