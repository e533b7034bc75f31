-- ===== src/Policy/Tax.antt =====
-- policy/tax.py: a bill's tax, split over the lines that it was charged on.
pub mod Shares
use expense_reimbursement_ta.Prelude.{ℕ, zero, suc, List, [], ◌∷◌, map, if◌then◌else◌}
use expense_reimbursement_ta.Prelude.Int.{ℤ, pos, ◌+ℤ◌, ◌-ℤ◌, ltb_ℤ, eqb_ℤ, sum}
use expense_reimbursement_ta.Prelude.Result.{Result, ok, err}
use expense_reimbursement_ta.Policy.Decimal.{pro_rata}

-- The `ValueError`.
pub data TaxError : Type 0 where
  zero_subtotal : TaxError

-- `max(range(len(xs)), key=lambda i: xs[i])`: the first of the largest. The best so far is at
-- `best`, with its amount; `i` is the place of the head.
unfoldable pub best_from : (best : ℕ) (amount : ℤ) (i : ℕ) → List ℤ → ℕ
best_from best amount i [] = best
best_from best amount i (x ∷ xs) =
    best_from (if ltb_ℤ amount x then i else best) (if ltb_ℤ amount x then x else amount) (suc i) xs

unfoldable pub largest : List ℤ → ℕ
largest [] = 0
largest (x ∷ xs) = best_from 0 x 1 xs

-- `shares[i] += residue`
unfoldable pub add_at : ℕ → ℤ → List ℤ → List ℤ
add_at i residue [] = []
add_at zero residue (x ∷ xs) = (x +ℤ residue) ∷ xs
add_at (suc i) residue (x ∷ xs) = x ∷ add_at i residue xs

unfoldable pub rounded_shares : List ℤ → ℤ → List ℤ
rounded_shares amounts total = map (λ a. pro_rata a (sum amounts) total) amounts

unfoldable pub settle : List ℤ → ℤ → List ℤ → List ℤ
settle amounts residue shares =
    if eqb_ℤ residue (pos 0) then shares else add_at (largest amounts) residue shares

unfoldable pub apportion_tax : List ℤ → ℤ → Result TaxError (List ℤ)
unfolding settle
apportion_tax [] total = ok []
apportion_tax (a ∷ rest) total =
    let amounts = a ∷ rest in
    let shares = rounded_shares amounts total in
    if eqb_ℤ (sum amounts) (pos 0)
    then err zero_subtotal
    else if eqb_ℤ total (pos 0)
    then ok (map (λ _. pos 0) amounts)
    else ok (settle amounts (total -ℤ sum shares) shares)
