-- ===== src/Policy/Engine/Each.antt =====
-- A property of every outcome of `evaluate_lines` (policy/engine.py) from one round of its loop.
use expense_reimbursement_ta.Prelude.{ℕ, ◌≡◌, some, List, [], ◌∷◌, length, get_elem?, set, All}
use expense_reimbursement_ta.Prelude.Dict.{Dict, lookup}
use expense_reimbursement_ta.Models.{ClaimLineStatus}
use expense_reimbursement_ta.Policy.Decision.{LineUnderReview, EvaluationContext}
use expense_reimbursement_ta.Policy.Engine.{
  Indexed, LineOutcome, Slots, visit, run_order, evaluate_lines, sorted, enumerate,
}
use expense_reimbursement_ta.Policy.Engine.Slots.{
  AllFilled, AllFilled-replicate, AllFilled-set, All-filled,
}
use expense_reimbursement_ta.Policy.Engine.Order.{Placed, order-Placed, start}

module _ (Q : LineOutcome → Type 0) (lines : List LineUnderReview) (presets : Dict ClaimLineStatus)
    (each : (i : ℕ) (l : LineUnderReview) (context : EvaluationContext)
      → get_elem? lines i ≡ some l
      → Q (visit (lookup i presets) l context).0) where
  run_order-All :
      (order : List Indexed) (context : EvaluationContext) (slots : Slots)
      → Placed lines order
      → AllFilled Q slots
      → AllFilled Q (run_order presets order context slots).1
  unfolding run_order
  run_order-All [] context slots p h = h
  run_order-All ((i, l) ∷ rest) context slots p h =
      let (o, context') = visit (lookup i presets) l context in
      run_order-All rest context' (set slots i (some o)) p.1
        (AllFilled-set Q slots i o (each i l context p.0) h)

  pub evaluate_lines-All :
      (context : EvaluationContext) → All Q (evaluate_lines lines context presets)
  unfolding evaluate_lines
  evaluate_lines-All context =
      All-filled Q (run_order presets (sorted (enumerate 0 lines)) context (start lines)).1 (
        run_order-All (sorted (enumerate 0 lines)) context (start lines) (order-Placed lines)
          (AllFilled-replicate Q (length lines)))
