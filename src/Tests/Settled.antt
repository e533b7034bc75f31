-- ===== src/Tests/Settled.antt =====
-- A claim settled from one cab.
use expense_reimbursement_ta.Prelude.Text.{is_member}
use expense_reimbursement_ta.Prelude.{◌≡◌, refl, some, none, [], ◌∷◌, List, false}
use expense_reimbursement_ta.Prelude.Int.{pos}
use expense_reimbursement_ta.Prelude.Text.{codes}
use expense_reimbursement_ta.Models.{ClaimLineStatus, ExpenseHead, Outcome, PaidBy, Role}
use expense_reimbursement_ta.Policy.Decision.{LineUnderReview, RuleId, conveyance_on_actuals, s3_4}
use expense_reimbursement_ta.Policy.Engine.{LineOutcome, evaluate_lines}
use expense_reimbursement_ta.Policy.Registry.{apply_rules, registered_rules, import_rules, register}
use expense_reimbursement_ta.Policy.Params.{
  amount_of, elements, get_field, limit, text_of, texts, flag_or,
}
use expense_reimbursement_ta.Policy.Decision.{claimable, effects, removed}
use expense_reimbursement_ta.Policy.Engine.{visit, comes_before, evaluate_one, line_status, judge}
use expense_reimbursement_ta.Policy.Rules.Conveyance.{conveyance_actuals}
use expense_reimbursement_ta.Policy.Rules.Entertainment.{
  entertainment_attendees, entertainment_prior_approval,
}
use expense_reimbursement_ta.Policy.Rules.Lodging.{lodging_tariff_limit}
use expense_reimbursement_ta.Policy.Rules.Meals.{meals_daily_cap, meals_bill_threshold}
use expense_reimbursement_ta.Policy.Rules.NonReimbursable.{
  categories, matching_category, non_reimbursable_category,
}
use expense_reimbursement_ta.Policy.Rules.Proof.{proof_required}
use expense_reimbursement_ta.Prelude.Int.{min_ℤ, ◌+ℤ◌, ◌-ℤ◌}
use expense_reimbursement_ta.Prelude.Text.{lower, search_word}
use expense_reimbursement_ta.Prelude.Int.{max_ℤ, sum}
use expense_reimbursement_ta.Prelude.Text.{is_empty, split, is_in, starts_with, text_ltb}
use expense_reimbursement_ta.Prelude.Result.{ok}
use expense_reimbursement_ta.Approvals.Routing.{
  ChainStep, ancestors, directory_of, employee, finance_step, first_finance, in_band, level, levels,
  parse_roles, required_roles, resolve_chain, role_of_text, roles_for_value,
}
use expense_reimbursement_ta.Evidence.Dedup.{find_duplicates, fingerprint, near_key, scan, seen_at}
use expense_reimbursement_ta.Claims.Attribution.{attribute, derive_paid_by, tokens}
use expense_reimbursement_ta.Claims.Drafting.{
  classify_head, draft_line, draft_status, drafted_as, line_date_of,
}
use expense_reimbursement_ta.Claims.Summary.{
  SettlementSummary, company_memo, disallowed_sum, employee_gross, post_init, summarise,
}
use expense_reimbursement_ta.Claims.Pipeline.{
  Piece, SettledDraft, draft_lines, line_of, pieces_at, preset_of, routed, settle_pieces, summed,
}
use expense_reimbursement_ta.Policy.Rev4.{rev4}
use expense_reimbursement_ta.Tests.Trip.{asha, cab, dev, drafting, evaluation, item, people, ravi}

-- One cab paid by the claimant, with an advance of 100 rupees.
abbrev pieces : List Piece
pieces = cab 101 17200 ∷ []

abbrev cab_line : LineUnderReview
cab_line = record {
  head = ExpenseHead.transport;
  description = codes "cab";
  gross_amount = pos 17200;
  paid_by = PaidBy.employee;
  line_date = some 101;
  tax_share = pos 0;
  nights = none;
  proof_ref = some (codes "mail");
  preset_reason = none;
}

abbrev pub cab_outcome : LineOutcome
cab_outcome = record {
  line = cab_line;
  status = ClaimLineStatus.allowed;
  allowed_amount = pos 17200;
  disallowed_amount = pos 0;
  decisions =
      record {
        rule_id = RuleId.conveyance_actuals;
        outcome = Outcome.allowed;
        reason = conveyance_on_actuals;
        citation = s3_4;
        amount_effect = pos 0;
      }
      ∷ [];
}

abbrev pub summary : SettlementSummary
summary = record {
  employee_paid_gross = pos 17200;
  company_paid_memo = pos 0;
  disallowed_total = pos 0;
  net_reimbursable = pos 17200;
  advance_drawn = pos 10000;
  payable = pos 7200;
  recoverable = pos 0;
}

abbrev pub chain : List ChainStep
chain =
    record { sequence = 1; role = Role.reporting_manager; approver = some ravi; note = none }
    ∷ record { sequence = 2; role = Role.finance; approver = some dev; note = none }
    ∷ []

abbrev pub settled_draft : SettledDraft
settled_draft = record {
  outcomes = cab_outcome ∷ [];
  summary = summary;
  chain = chain;
  dedup = find_duplicates (item 101 17200 ∷ []);
}

one_kept : pieces_at pieces (find_duplicates (item 101 17200 ∷ [])).kept ≡ pieces
unfolding find_duplicates scan seen_at fingerprint near_key pieces_at
one_kept = refl

drafted : draft_lines drafting [] 0 pieces ≡ ok (cab_line ∷ [], [])
unfolding draft_lines draft_line drafted_as classify_head draft_status attribute tokens
    derive_paid_by split is_in starts_with preset_of line_of line_date_of is_empty lower is_member
drafted = refl

judged : evaluate_lines (cab_line ∷ []) evaluation [] ≡ cab_outcome ∷ []
unfolding evaluate_lines visit comes_before evaluate_one line_status apply_rules registered_rules
    conveyance_actuals entertainment_attendees entertainment_prior_approval lodging_tariff_limit
    meals_daily_cap amount_of claimable effects removed judge elements get_field limit text_of texts
    import_rules register meals_bill_threshold categories matching_category
    non_reimbursable_category proof_required min_ℤ ◌+ℤ◌ ◌-ℤ◌ lower search_word
judged = refl

summed_up : summarise (cab_outcome ∷ []) (pos 10000) ≡ ok summary
unfolding summarise post_init employee_gross company_memo disallowed_sum max_ℤ sum claimable ◌+ℤ◌
    ◌-ℤ◌
summed_up = refl

pub chained : resolve_chain (pos 17200) asha (directory_of people) rev4 false ≡ ok chain
unfolding resolve_chain roles_for_value in_band parse_roles role_of_text required_roles ancestors
    employee levels level finance_step first_finance directory_of amount_of elements get_field limit
    texts flag_or text_ltb is_empty is_member
chained = refl

pub settles : settle_pieces drafting evaluation [] (pos 10000) asha people pieces ≡ ok settled_draft
unfolding settle_pieces summed routed
settles = rw (one_kept, drafted, judged, summed_up, chained) refl
