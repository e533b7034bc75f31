-- ===== src/Policy/Engine/Lines.antt =====
-- `evaluate_lines` as a whole (policy/engine.py): nothing is dropped or reordered, and the meals
-- of a day stay within its cap.
use expense_reimbursement_ta.Prelude.{
  ℕ, ◌+◌, ◌≡◌, ◌≢◌, ◌∙◌, none, some, List, [], ◌∷◌, map, arith, length, get_elem?, set, replicate,
  All, All-zip, get_elem?-set_ne,
}
use expense_reimbursement_ta.Prelude.Int.{ℤ, ◌+ℤ◌, ◌≤ℤ◌, sum, int_laws}
use expense_reimbursement_ta.Prelude.Dict.{Dict, lookup}
use expense_reimbursement_ta.Models.{Date, ClaimLineStatus}
use expense_reimbursement_ta.Policy.Decision.{LineUnderReview, EvaluationContext}
use expense_reimbursement_ta.Policy.Rules.Meals.{daily_cap, claimed_on}
use expense_reimbursement_ta.Policy.Engine.{
  Indexed, LineOutcome, Slots, visit, run_order, evaluate_in, evaluate_lines, sorted, enumerate,
}
use expense_reimbursement_ta.Policy.Engine.Slots.{
  Agree, Agree-set, Agree-replicate, filled_count, filled_count-set, filled_count-replicate,
  map-filled, meal_on, slot_sum, slot_sum-set, slot_sum-replicate, slot_sum-filled,
}
use expense_reimbursement_ta.Policy.Engine.Visits.{visit-IsRound}
use expense_reimbursement_ta.Policy.Engine.Order.{
  Distinct, Placed, order-Distinct, order-Placed, length-order, order_free,
}

abbrev Free : Slots → List Indexed → Type 0
Free slots order = All (λ p. get_elem? slots p.0 ≡ some none) order

Free-set :
    (i : ℕ) (o : LineOutcome) (slots : Slots) (rest : List Indexed)
    → All (λ p. i ≢ p.0) rest
    → Free slots rest
    → Free (set slots i (some o)) rest
Free-set i o slots rest =
    All-zip rest (λ p other free. get_elem?-set_ne slots i p.0 (some o) other ∙ free)

module _ (presets : Dict ClaimLineStatus) where
  run_order-count :
      (order : List Indexed) (context : EvaluationContext) (slots : Slots)
      → Distinct order
      → Free slots order
      → filled_count (run_order presets order context slots).1 ≡ filled_count slots + length order
  unfolding run_order
  run_order-count [] context slots d f = omega arith
  run_order-count ((i, l) ∷ rest) context slots d f =
      let (o, context') = visit (lookup i presets) l context in
      omega (
        arith,
        run_order-count rest context' (set slots i (some o)) d.1 (Free-set i o slots rest d.0 f.1),
        filled_count-set slots i o f.0,
      )

  run_order-Agree :
      (lines : List LineUnderReview) (order : List Indexed) (context : EvaluationContext)
      (slots : Slots)
      → Placed lines order
      → Agree lines slots
      → Agree lines (run_order presets order context slots).1
  unfolding run_order
  run_order-Agree lines [] context slots p a = a
  run_order-Agree lines ((i, l) ∷ rest) context slots p a =
      let (o, context') = visit (lookup i presets) l context in
      run_order-Agree lines rest context' (set slots i (some o)) p.1
        (Agree-set lines slots i l o p.0 (visit-IsRound l context (lookup i presets)).same_line a)

  run_order-recorded :
      (day : Date) (base : ℤ) (order : List Indexed) (context : EvaluationContext) (slots : Slots)
      → Distinct order
      → Free slots order
      → claimed_on day context.meals_claimed_by_date ≡ base +ℤ slot_sum (meal_on day) slots
      → let (context', slots') = run_order presets order context slots in
        claimed_on day context'.meals_claimed_by_date ≡ base +ℤ slot_sum (meal_on day) slots'
  unfolding run_order
  run_order-recorded day base [] context slots d f h = h
  run_order-recorded day base ((i, l) ∷ rest) context slots d f h =
      let (o, context') = visit (lookup i presets) l context in
      run_order-recorded day base rest context' (set slots i (some o)) d.1
        (Free-set i o slots rest d.0 f.1)
        (rw
          (
            (visit-IsRound l context (lookup i presets)).recorded day,
            h,
            slot_sum-set (meal_on day) slots i o f.0,
          )
          (omega int_laws))

  run_order-capped :
      (day : Date) (cap : ℤ) (order : List Indexed) (context : EvaluationContext) (slots : Slots)
      → daily_cap context ≡ some cap
      → claimed_on day context.meals_claimed_by_date ≤ℤ cap
      → claimed_on day (run_order presets order context slots).0.meals_claimed_by_date ≤ℤ cap
  unfolding run_order
  run_order-capped day cap [] context slots c h = h
  run_order-capped day cap ((i, l) ∷ rest) context slots c h =
      let (o, context') = visit (lookup i presets) l context in
      let round = visit-IsRound l context (lookup i presets) in
      run_order-capped day cap rest context' (set slots i (some o)) (round.same_cap ∙ c)
        (round.capped day cap c h)

module _ (lines : List LineUnderReview) (context : EvaluationContext)
    (presets : Dict ClaimLineStatus) where
  abbrev order : List Indexed
  order = sorted (enumerate 0 lines)

  abbrev start : Slots
  start = replicate (length lines) none

  -- Every line comes out once, in its place, whatever its date and its preset.
  pub evaluate_lines-lines : map (λ o. o.line) (evaluate_lines lines context presets) ≡ lines
  unfolding evaluate_lines
  evaluate_lines-lines =
      map-filled lines (run_order presets order context start).1
        (run_order-Agree presets lines order context start (order-Placed lines)
          (Agree-replicate lines))
        (omega (
          arith,
          run_order-count presets order context start (order-Distinct lines)
              (order_free lines order (order-Placed lines)),
          filled_count-replicate (length lines),
          length-order lines,
        ))

  -- The running total of a day grows by exactly what its meal lines are allowed.
  pub meals_recorded :
      (day : Date)
      → claimed_on day (evaluate_in lines context presets).0.meals_claimed_by_date
        ≡ claimed_on day context.meals_claimed_by_date
          +ℤ sum (map (meal_on day) (evaluate_lines lines context presets))
  unfolding evaluate_lines
  meals_recorded day =
      rw (← slot_sum-filled (meal_on day) (run_order presets order context start).1) (
        run_order-recorded presets day (claimed_on day context.meals_claimed_by_date) order context
          start (order-Distinct lines) (order_free lines order (order-Placed lines))
          (rw (slot_sum-replicate (meal_on day) (length lines)) (omega int_laws)))

  -- Under a daily cap that the day has not passed before, what is allowed over all meal lines of a
  -- day, together with what was claimed before, stays within the cap.
  pub meals_within_cap :
      (day : Date) (cap : ℤ)
      → daily_cap context ≡ some cap
      → claimed_on day context.meals_claimed_by_date ≤ℤ cap
      → claimed_on day context.meals_claimed_by_date
          +ℤ sum (map (meal_on day) (evaluate_lines lines context presets))
        ≤ℤ cap
  meals_within_cap day cap c h =
      rw (← meals_recorded day)
        (unfold evaluate_in in run_order-capped presets day cap order context start c h)
