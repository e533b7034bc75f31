-- ===== src/Policy/Engine/Visits.antt =====
-- One round of the loop of `evaluate_lines`: what it does to the context, and for which line its
-- outcome is (policy/engine.py).
use expense_reimbursement_ta.Prelude.{
  ◌≡◌, refl, Option, some, arith, Option-cases, inl, inr, ◌⊎◌, ap, sym, ◌∙◌,
}
use expense_reimbursement_ta.Prelude.Int.{ℤ, pos, ◌+ℤ◌, ◌≤ℤ◌, +ℤ-zero, eq_of_parts}
use expense_reimbursement_ta.Prelude.Dict.{lookup-insert}
use expense_reimbursement_ta.Models.{Date, ClaimLineStatus, ExpenseHead}
use expense_reimbursement_ta.Policy.Decision.{LineUnderReview, EvaluationContext}
use expense_reimbursement_ta.Policy.Rules.Meals.{daily_cap, claimed_on}
use expense_reimbursement_ta.Policy.Engine.{
  LineOutcome, evaluate_one, feed_back, visit, rejected_outcome, memo_outcome, withdrawn_outcome,
}
use expense_reimbursement_ta.Policy.Engine.Slots.{meal_on}
use expense_reimbursement_ta.Policy.Engine.Amounts.{evaluate_one-IsSplit, allowed_within_cap}

feed_back-claimed :
    (day : Date) (o : LineOutcome) (context : EvaluationContext)
    → pos 0 ≤ℤ o.allowed_amount
    → claimed_on day (feed_back o context).meals_claimed_by_date
      ≡ claimed_on day context.meals_claimed_by_date +ℤ meal_on day o
unfolding feed_back meal_on
feed_back-claimed day o context h =
    let claimed = context.meals_claimed_by_date in
    elim (Option-cases o.line.line_date) [
      | inl undated ↦ ground (arith, +ℤ-zero (claimed_on day claimed))
      | inr (d, e) ↦ ground (
        arith,
        +ℤ-zero (claimed_on day claimed),
        eq_of_parts o.allowed_amount (pos 0),
        lookup-insert d day (claimed_on d claimed +ℤ o.allowed_amount) claimed,
      )
    ]

-- Feeding back leaves the policy and the city alone.
feed_back-cap :
    (o : LineOutcome) (context : EvaluationContext)
    → daily_cap (feed_back o context) ≡ daily_cap context
unfolding feed_back daily_cap
feed_back-cap o context = ground arith

meal_on-cases :
    (day : Date) (o : LineOutcome)
    → (meal_on day o ≡ pos 0)
      ⊎ (o.line.head ≡ ExpenseHead.meals)
        × (o.line.line_date ≡ some day)
        × (meal_on day o ≡ o.allowed_amount)
unfolding meal_on
meal_on-cases day o = elim (Option-cases o.line.line_date) [
  | inl undated ↦ inl (ground arith)
  | inr (d, e) ↦ ground arith
]

-- What one round does, whatever decided its line.
pub record IsRound (line : LineUnderReview) (context : EvaluationContext)
    (r : LineOutcome × EvaluationContext) : Type 0 where
  pub same_line : r.0.line ≡ line
  pub same_cap : daily_cap r.1 ≡ daily_cap context
  pub recorded :
      (day : Date)
      → claimed_on day r.1.meals_claimed_by_date
        ≡ claimed_on day context.meals_claimed_by_date +ℤ meal_on day r.0
  pub capped :
      (day : Date) (cap : ℤ)
      → daily_cap context ≡ some cap
      → claimed_on day context.meals_claimed_by_date ≤ℤ cap
      → claimed_on day r.1.meals_claimed_by_date ≤ℤ cap

module _ (line : LineUnderReview) (context : EvaluationContext) where
  preset-IsRound :
      (o : LineOutcome)
      → o.line ≡ line
      → o.allowed_amount ≡ pos 0
      → IsRound line context (o, context)
  preset-IsRound o e z = record {
    same_line = e;
    same_cap = refl;
    recorded = λ day.
        unfold meal_on in ground (arith, +ℤ-zero (claimed_on day context.meals_claimed_by_date));
    capped = λ day cap c h. h;
  }

  rules-IsRound : let o = evaluate_one line context in IsRound line context (o, feed_back o context)
  rules-IsRound =
      let o = evaluate_one line context in
      let split = evaluate_one-IsSplit line context in
      let claimed = λ (day : Date). feed_back-claimed day o context split.2 in
      record {
        same_line = split.0;
        same_cap = feed_back-cap o context;
        recorded = claimed;
        capped = λ day cap c h. rw (claimed day) (elim (meal_on-cases day o) [
          | inl e ↦ rw (e, +ℤ-zero (claimed_on day context.meals_claimed_by_date)) h
          | inr (head, date, e) ↦ rw e (
              allowed_within_cap line context day cap
                (ap (λ (l : LineUnderReview). l.head) (sym split.0) ∙ head)
                (ap (λ (l : LineUnderReview). l.line_date) (sym split.0) ∙ date) c h)
        ]);
      }

  pub visit-IsRound :
      (preset : Option ClaimLineStatus) → IsRound line context (visit preset line context)
  unfolding visit rejected_outcome memo_outcome withdrawn_outcome
  visit-IsRound (some ClaimLineStatus.rejected) = preset-IsRound _ refl refl
  visit-IsRound (some ClaimLineStatus.memo) = preset-IsRound _ refl refl
  visit-IsRound (some ClaimLineStatus.withdrawn) = preset-IsRound _ refl refl
  visit-IsRound _ = rules-IsRound
