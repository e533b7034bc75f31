-- ===== src/Claims/Pipeline/Built.antt =====
-- What `build_claim` of claims/pipeline.py makes of the documents of a trip.
use expense_reimbursement_ta.Prelude.{◌≡◌, refl, ap, ◌∙◌, subst, false, List, map, All}
use expense_reimbursement_ta.Prelude.Int.{ℤ, pos, ◌≤ℤ◌}
use expense_reimbursement_ta.Prelude.Result.{ok, ok_inj, bind_ok}
use expense_reimbursement_ta.Prelude.Text.{Text}
use expense_reimbursement_ta.Policy.Decision.{EvaluationContext}
use expense_reimbursement_ta.Approvals.Routing.{EmployeeRef, directory_of, resolve_chain}
use expense_reimbursement_ta.Claims.Drafting.{DraftContext, find_coverage_gaps}
use expense_reimbursement_ta.Claims.Pipeline.{SettledDraft, settle_pieces}
use expense_reimbursement_ta.Claims.Pipeline.Money.{settle_pieces_sound}
use expense_reimbursement_ta.Claims.Summary.Settlement.{allowed_sum}
use expense_reimbursement_ta.Claims.Pipeline.Collect.{
  BuiltDraft, Collected, Reading, build_claim, built_of, collect, nothing_collected,
}
use expense_reimbursement_ta.Claims.Pipeline.Collect.Accounted.{
  IsShelved, collect_accounts, gathered, shelf_of,
}
use expense_reimbursement_ta.Claims.Pipeline.Collect.Stays.{collect-stays, stays_shown}
use expense_reimbursement_ta.Claims.Pipeline.Judged.{
  said_by_item, said_by_line, settle_pieces_judges,
}
use expense_reimbursement_ta.Evidence.Dedup.{filter_out, find_duplicates}
use expense_reimbursement_ta.Tables.{DocumentRow}

-- A draft that is built of a trip's documents rests on exactly the items of those that were read, by
-- hand or by machine, in order, and every other document is recorded as set aside or as needing
-- input. Duplicates are looked for among these items, and the judged lines are, in order, those of
-- the items that survive, by description and gross amount. The net amount is the sum of what the
-- lines are allowed, it is not negative, and the chain of the draft is the one that this amount
-- resolves to. The coverage gaps are those that the stays of all hotel invoices that were read leave
-- in the trip.
pub build_claim_sound :
    (read : DocumentRow → Reading) (documents : List DocumentRow) (context : DraftContext)
    (evaluation : EvaluationContext) (withdrawn : List Text) (advance_drawn : ℤ)
    (claimant : EmployeeRef) (people : List EmployeeRef) (built : BuiltDraft)
    → build_claim read documents context evaluation withdrawn advance_drawn claimant people
      ≡ ok built
    → (map (λ p. p.item) built.collected.pieces ≡ gathered read documents)
      × All (λ d. IsShelved (shelf_of read d) d.source_filename built.collected) documents
      × (built.settled.summary.net_reimbursable ≡ allowed_sum built.settled.outcomes)
      × (pos 0 ≤ℤ built.settled.summary.net_reimbursable)
      × (resolve_chain built.settled.summary.net_reimbursable claimant
            (directory_of people)
            evaluation.params
            false
          ≡ ok built.settled.chain)
      × (built.coverage_gaps
          ≡ find_coverage_gaps evaluation.trip_from evaluation.trip_to (stays_shown read documents))
      × (built.settled.dedup ≡ find_duplicates (gathered read documents))
      × (map (λ o. said_by_line o.line) built.settled.outcomes
          ≡ map said_by_item (filter_out (gathered read documents) built.settled.dedup))
unfolding build_claim built_of
build_claim_sound read documents context evaluation withdrawn advance_drawn claimant people built
      e =
    let (collected, gathered_all, e1) =
      bind_ok (collect read nothing_collected documents) _ built e in
    let (settled, settles, e2) =
      bind_ok
        (settle_pieces context evaluation withdrawn advance_drawn claimant people collected.pieces)
        _ built e1 in
    let same = ok_inj e2 in
    let (whole, shelved) = collect_accounts read documents collected gathered_all in
    let (net, nonneg, routed) =
      settle_pieces_sound context evaluation withdrawn advance_drawn claimant people
        collected.pieces settled settles in
    let (dedup, judged) =
      settle_pieces_judges context evaluation withdrawn advance_drawn claimant people
        collected.pieces settled settles in
    let stays = collect-stays read nothing_collected documents collected gathered_all in
    let same_collected : collected ≡ built.collected = ap (λ b. b.collected) same in
    let same_settled : settled ≡ built.settled = ap (λ b. b.settled) same in
    (
      subst (λ c. map (λ p. p.item) c.pieces ≡ gathered read documents) same_collected whole,
      subst (λ c. All (λ d. IsShelved (shelf_of read d) d.source_filename c) documents)
          same_collected shelved,
      subst (λ s. s.summary.net_reimbursable ≡ allowed_sum s.outcomes) same_settled net,
      subst (λ s. pos 0 ≤ℤ s.summary.net_reimbursable) same_settled nonneg,
      subst
          (λ s.
            resolve_chain s.summary.net_reimbursable claimant (directory_of people)
              evaluation.params false
            ≡ ok s.chain)
          same_settled routed,
      subst
          (λ b.
            b.coverage_gaps
            ≡ find_coverage_gaps evaluation.trip_from evaluation.trip_to
                (stays_shown read documents))
          same (ap (find_coverage_gaps evaluation.trip_from evaluation.trip_to) stays),
      subst (λ s. s.dedup ≡ find_duplicates (gathered read documents)) same_settled
          (dedup ∙ ap find_duplicates whole),
      subst
          (λ s.
            map (λ o. said_by_line o.line) s.outcomes
            ≡ map said_by_item (filter_out (gathered read documents) s.dedup))
          same_settled
          (judged ∙ ap (λ items. map said_by_item (filter_out items settled.dedup)) whole),
    )

-- A draft is built wherever the documents can be gone through and the pieces settled.
pub build_claim_complete :
    (read : DocumentRow → Reading) (documents : List DocumentRow) (context : DraftContext)
    (evaluation : EvaluationContext) (withdrawn : List Text) (advance_drawn : ℤ)
    (claimant : EmployeeRef) (people : List EmployeeRef) (c : Collected) (settled : SettledDraft)
    → collect read nothing_collected documents ≡ ok c
    → settle_pieces context evaluation withdrawn advance_drawn claimant people c.pieces ≡ ok settled
    → build_claim read documents context evaluation withdrawn advance_drawn claimant people
      ≡ ok (built_of evaluation c settled)
unfolding build_claim
build_claim_complete read documents context evaluation withdrawn advance_drawn claimant people c
      settled gone_through settles =
    rw (build_claim, gone_through, settles) refl
