-- ===== src/Tests/Policy.antt =====
-- Policy at concrete inputs.
use expense_reimbursement_ta.Policy.Decimal.{pro_rata}
use expense_reimbursement_ta.Prelude.Int.{◌-ℤ◌}
use expense_reimbursement_ta.Prelude.{◌≡◌, ◌≢◌, refl, ap, some, List, [], ◌∷◌, map, length, arith}
use expense_reimbursement_ta.Prelude.Int.{ℤ, pos, pos_part, ◌+ℤ◌, ◌≤ℤ◌, sum}
use expense_reimbursement_ta.Prelude.Result.{ok}
use expense_reimbursement_ta.Policy.Params.{amount_of, get_field, limit}
use expense_reimbursement_ta.Policy.Rules.Meals.{daily_cap, claimed_on}
use expense_reimbursement_ta.Policy.Engine.{evaluate_one, evaluate_lines}
use expense_reimbursement_ta.Policy.Engine.Slots.{meal_on}
use expense_reimbursement_ta.Policy.Engine.Amounts.{IsSplit, evaluate_one-IsSplit}
use expense_reimbursement_ta.Policy.Engine.Lines.{meals_within_cap, evaluate_lines-lines}
use expense_reimbursement_ta.Policy.Tax.{best_from, largest, rounded_shares, apportion_tax}
use expense_reimbursement_ta.Policy.Tax.Shares.{apportion_tax_exact}
use expense_reimbursement_ta.Tests.Trip.{evaluation, laundry, lines, presets}

tier_2_cap : daily_cap evaluation ≡ some (pos 100000)
unfolding daily_cap limit get_field amount_of
tier_2_cap = refl

nothing_before : claimed_on 101 evaluation.meals_claimed_by_date ≤ℤ pos 100000
nothing_before = omega arith

meals_within_cap_example :
    claimed_on 101 evaluation.meals_claimed_by_date
      +ℤ sum (map (meal_on 101) (evaluate_lines lines evaluation presets))
    ≤ℤ pos 100000
meals_within_cap_example =
    meals_within_cap lines evaluation presets 101 (pos 100000) tier_2_cap nothing_before

evaluate_lines-lines_example : map (λ o. o.line) (evaluate_lines lines evaluation presets) ≡ lines
evaluate_lines-lines_example = evaluate_lines-lines lines evaluation presets

evaluate_one-IsSplit_example : IsSplit laundry (evaluate_one laundry evaluation)
evaluate_one-IsSplit_example = evaluate_one-IsSplit laundry evaluation

subtotal_not_zero : sum (pos 1000 ∷ pos 2000 ∷ []) ≢ pos 0
unfolding sum ◌+ℤ◌
subtotal_not_zero e = let x = ap pos_part e in omega arith

apportion_tax_exact_example :
    (shares : List ℤ) × (apportion_tax (pos 1000 ∷ pos 2000 ∷ []) (pos 100) ≡ ok shares)
    × (sum shares ≡ pos 100)
    × (length shares ≡ 2)
apportion_tax_exact_example =
    apportion_tax_exact (pos 1000) (pos 2000 ∷ []) (pos 100) subtotal_not_zero

thirds : apportion_tax (pos 1000 ∷ pos 2000 ∷ []) (pos 100) ≡ ok (pos 33 ∷ pos 67 ∷ [])
unfolding apportion_tax sum ◌+ℤ◌ ◌-ℤ◌ rounded_shares pro_rata
thirds = refl

first_not_largest : 0 ≢ largest (pos 1000 ∷ pos 2000 ∷ [])
unfolding largest best_from
first_not_largest e = omega (arith, e)
