-- ===== src/Policy/Engine.antt =====
-- policy/engine.py
pub mod Amounts
pub mod Slots
pub mod Visits
pub mod Order
pub mod Lines
pub mod Each
use expense_reimbursement_ta.Prelude.{
  ℕ, suc, Bool, ◌||◌, ◌&&◌, Option, none, some, List, [], ◌∷◌, ltb, ◌==◌, if◌then◌else◌, or_else,
  length, set, replicate, any,
}
use expense_reimbursement_ta.Prelude.Int.{ℤ, pos, ◌+ℤ◌, ◌-ℤ◌, ltb_ℤ, leb_ℤ, min_ℤ}
use expense_reimbursement_ta.Prelude.Dict.{Dict, lookup, insert}
use expense_reimbursement_ta.Models.{Date, ClaimLineStatus, Outcome, is_held, is_meals}
use expense_reimbursement_ta.Policy.Decision.{
  RuleId, Clause, Reason, Decision, LineUnderReview, EvaluationContext, claimable, effects,
}
use expense_reimbursement_ta.Policy.Registry.{registered_rules, apply_rules}
use expense_reimbursement_ta.Policy.Rules.Meals.{claimed_on}

pub record LineOutcome : Type 0 where
  pub line : LineUnderReview
  pub status : ClaimLineStatus
  pub allowed_amount : ℤ
  pub disallowed_amount : ℤ
  pub decisions : List Decision

-- The property `blocking_reasons`.
unfoldable pub blocking_reasons : List Decision → List Reason
blocking_reasons [] = []
blocking_reasons (d ∷ ds) =
    let rest = blocking_reasons ds in if is_held d.outcome then d.reason ∷ rest else rest

unfoldable pub line_status : List Decision → (disallowed claim : ℤ) → ClaimLineStatus
line_status decisions disallowed claim =
    if any (λ d. is_held d.outcome) decisions
    then ClaimLineStatus.held
    else if leb_ℤ claim disallowed && ltb_ℤ (pos 0) claim
    then ClaimLineStatus.disallowed
    else ClaimLineStatus.allowed

-- The outcome of a line whose rules made these decisions.
unfoldable pub judge : LineUnderReview → List Decision → LineOutcome
judge line decisions =
    let disallowed = min_ℤ (effects decisions) (claimable line) in
    record {
      line = line;
      status = line_status decisions disallowed (claimable line);
      allowed_amount = claimable line -ℤ disallowed;
      disallowed_amount = disallowed;
      decisions = decisions;
    }

unfoldable pub evaluate_one : LineUnderReview → EvaluationContext → LineOutcome
unfolding judge
evaluate_one line context = judge line (apply_rules registered_rules line context)

abbrev set_aside : LineUnderReview → ClaimLineStatus → Decision → LineOutcome
set_aside line status decision = record {
  line = line;
  status = status;
  allowed_amount = pos 0;
  disallowed_amount = pos 0;
  decisions = decision ∷ [];
}

-- `_rejected`
unfoldable pub rejected_outcome : LineUnderReview → LineOutcome
rejected_outcome line = set_aside line ClaimLineStatus.rejected (record {
  rule_id = RuleId.third_party_claimant;
  outcome = Outcome.rejected;
  reason = or_else line.preset_reason Reason.incurred_by_another;
  citation = Clause.s4;
  amount_effect = pos 0;
})

-- `_memo`
unfoldable pub memo_outcome : LineUnderReview → LineOutcome
memo_outcome line = set_aside line ClaimLineStatus.memo (record {
  rule_id = RuleId.air_company_borne;
  outcome = Outcome.info;
  reason = or_else line.preset_reason Reason.booked_centrally;
  citation = Clause.s3_2;
  amount_effect = pos 0;
})

-- `_withdrawn`
unfoldable pub withdrawn_outcome : LineUnderReview → LineOutcome
withdrawn_outcome line = set_aside line ClaimLineStatus.withdrawn (record {
  rule_id = RuleId.line_withdrawn;
  outcome = Outcome.info;
  reason = or_else line.preset_reason Reason.withdrawn_by_employee;
  citation = Clause.s5_2;
  amount_effect = pos 0;
})

abbrev pub Indexed : Type 0
Indexed = ℕ × LineUnderReview

-- `date.max.toordinal()`
abbrev date_max : Date
date_max = 3652059

-- The sort key `(line_date or date.max, i)`.
unfoldable pub comes_before : Indexed → Indexed → Bool
comes_before (i, l) (j, m) =
    let a = or_else l.line_date date_max in
    let b = or_else m.line_date date_max in ltb a b || (a == b) && ltb i j

unfoldable pub insert_sorted : Indexed → List Indexed → List Indexed
insert_sorted x [] = x ∷ []
insert_sorted x (y ∷ ys) =
    let rest = insert_sorted x ys in if comes_before y x then y ∷ rest else x ∷ y ∷ ys

unfoldable pub sorted : List Indexed → List Indexed
unfolding insert_sorted
sorted [] = []
sorted (x ∷ xs) = insert_sorted x (sorted xs)

unfoldable pub enumerate : ℕ → List LineUnderReview → List Indexed
enumerate i [] = []
enumerate i (l ∷ ls) = (i, l) ∷ enumerate (suc i) ls

add_meal : Date → ℤ → EvaluationContext → EvaluationContext
add_meal day amount context = record context {
  meals_claimed_by_date =
      insert day (claimed_on day context.meals_claimed_by_date +ℤ amount)
        context.meals_claimed_by_date;
}

-- What the loop feeds back: the allowed spend of a dated meal.
feed_meal : Option Date → Bool → ℤ → EvaluationContext → EvaluationContext
feed_meal none meal allowed context = context
feed_meal (some day) meal allowed context =
    if ltb_ℤ (pos 0) allowed && meal then add_meal day allowed context else context

unfoldable pub feed_back : LineOutcome → EvaluationContext → EvaluationContext
unfolding feed_meal add_meal
feed_back o context = feed_meal o.line.line_date (is_meals o.line.head) o.allowed_amount context

-- The body of the loop: a preset decides the line, or the rules do.
unfoldable pub visit :
    Option ClaimLineStatus → LineUnderReview → EvaluationContext → LineOutcome × EvaluationContext
visit (some ClaimLineStatus.rejected) line context = (rejected_outcome line, context)
visit (some ClaimLineStatus.memo) line context = (memo_outcome line, context)
visit (some ClaimLineStatus.withdrawn) line context = (withdrawn_outcome line, context)
visit _ line context =
    let outcome = evaluate_one line context in (outcome, feed_back outcome context)

abbrev pub Slots : Type 0
Slots = List (Option LineOutcome)

-- `for index in order: … outcomes[index] = …`
pub run_order :
    Dict ClaimLineStatus → List Indexed → EvaluationContext → Slots → EvaluationContext × Slots
run_order presets [] context slots = (context, slots)
run_order presets ((i, line) ∷ rest) context slots =
    let (outcome, context') = visit (lookup i presets) line context in
    run_order presets rest context' (set slots i (some outcome))

-- `[outcome for outcome in outcomes if outcome is not None]`
unfoldable pub filled : Slots → List LineOutcome
filled [] = []
filled (none ∷ rest) = filled rest
filled (some o ∷ rest) = o ∷ filled rest

-- The context is mutated, so it comes back beside the outcomes.
pub evaluate_in :
    List LineUnderReview
    → EvaluationContext
    → Dict ClaimLineStatus
    → EvaluationContext × List LineOutcome
unfolding run_order sorted enumerate filled visit
evaluate_in lines context presets =
    let (context', slots) =
      run_order presets (sorted (enumerate 0 lines)) context (replicate (length lines) none) in
    (context', filled slots)

unfoldable pub evaluate_lines :
    List LineUnderReview → EvaluationContext → Dict ClaimLineStatus → List LineOutcome
unfolding evaluate_in
evaluate_lines lines context presets = (evaluate_in lines context presets).1
