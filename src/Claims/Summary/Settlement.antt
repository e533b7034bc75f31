-- ===== src/Claims/Summary/Settlement.antt =====
-- The settlement arithmetic of claims/summary.py.
use expense_reimbursement_ta.Prelude.{
  ◌≡◌, ◌⊎◌, refl, inl, inr, true, false, List, [], ◌∷◌, map, arith, All,
}
use expense_reimbursement_ta.Prelude.Int.{ℤ, pos, ◌+ℤ◌, ◌-ℤ◌, ◌≤ℤ◌, max_ℤ, sum, int_laws}
use expense_reimbursement_ta.Prelude.Result.{ok}
use expense_reimbursement_ta.Models.{paid_by_employee}
use expense_reimbursement_ta.Policy.Decision.{claimable}
use expense_reimbursement_ta.Policy.Engine.{LineOutcome}
use expense_reimbursement_ta.Claims.Summary.{
  SettlementSummary, is_excluded, summarise, employee_gross, disallowed_sum, company_memo,
}

-- One of the two is zero, neither is negative, and together they are the difference.
either_side :
    (d : ℤ)
    → (pos 0 ≤ℤ max_ℤ d (pos 0))
      × (pos 0 ≤ℤ max_ℤ (pos 0 -ℤ d) (pos 0))
      × ((max_ℤ d (pos 0) ≡ pos 0) ⊎ (max_ℤ (pos 0 -ℤ d) (pos 0) ≡ pos 0))
      × (max_ℤ d (pos 0) -ℤ max_ℤ (pos 0 -ℤ d) (pos 0) ≡ d)
unfolding max_ℤ ◌-ℤ◌
either_side d = ground arith

-- The summary is never refused. Payable and recoverable are not negative, one of them is zero, and
-- they settle the net amount against the advance.
pub summarise_settles :
    (outcomes : List LineOutcome) (advance : ℤ)
    → (s : SettlementSummary) × (summarise outcomes advance ≡ ok s)
      × (s.net_reimbursable ≡ s.employee_paid_gross -ℤ s.disallowed_total)
      × (pos 0 ≤ℤ s.payable)
      × (pos 0 ≤ℤ s.recoverable)
      × ((s.payable ≡ pos 0) ⊎ (s.recoverable ≡ pos 0))
      × (s.payable -ℤ s.recoverable ≡ s.net_reimbursable -ℤ advance)
unfolding summarise
summarise_settles outcomes advance =
    let net = employee_gross outcomes -ℤ disallowed_sum outcomes in
    let d = net -ℤ advance in
    let (payable_ok, recoverable_ok, one_zero, settled) = either_side d in
    (
      record {
        employee_paid_gross = employee_gross outcomes;
        company_paid_memo = company_memo outcomes;
        disallowed_total = disallowed_sum outcomes;
        net_reimbursable = net;
        advance_drawn = advance;
        payable = max_ℤ d (pos 0);
        recoverable = max_ℤ (pos 0 -ℤ d) (pos 0);
      },
      ground arith,
      refl,
      payable_ok,
      recoverable_ok,
      one_zero,
      settled,
    )

-- What the engine and the drafting guarantee of an outcome: it takes no part in the money and is
-- allowed nothing, or the employee paid it and it is split into what is allowed and what is not.
abbrev pub IsCounted : LineOutcome → Type 0
IsCounted o =
    (is_excluded o.status ≡ true) × (o.allowed_amount ≡ pos 0)
    ⊎ (is_excluded o.status ≡ false)
      × (paid_by_employee o.line.paid_by ≡ true)
      × (o.allowed_amount +ℤ o.disallowed_amount ≡ claimable o.line)
      × (pos 0 ≤ℤ o.allowed_amount)

abbrev pub allowed_sum : List LineOutcome → ℤ
allowed_sum outcomes = sum (map (λ o. o.allowed_amount) outcomes)

module _ (o : LineOutcome) (rest : List LineOutcome) where
  out_of_sums :
      is_excluded o.status ≡ true
      → (employee_gross (o ∷ rest) ≡ employee_gross rest)
        × (disallowed_sum (o ∷ rest) ≡ disallowed_sum rest)
  unfolding employee_gross disallowed_sum
  out_of_sums out = ground arith

  in_sums :
      is_excluded o.status ≡ false
      → paid_by_employee o.line.paid_by ≡ true
      → (employee_gross (o ∷ rest) ≡ claimable o.line +ℤ employee_gross rest)
        × (disallowed_sum (o ∷ rest) ≡ o.disallowed_amount +ℤ disallowed_sum rest)
  unfolding employee_gross disallowed_sum sum
  in_sums counted paid = ground arith

  allowed_sum-cons : allowed_sum (o ∷ rest) ≡ o.allowed_amount +ℤ allowed_sum rest
  unfolding sum
  allowed_sum-cons = refl

net_of_nil : (employee_gross [] -ℤ disallowed_sum [] ≡ allowed_sum []) × (pos 0 ≤ℤ allowed_sum [])
unfolding employee_gross disallowed_sum sum
net_of_nil = (omega int_laws, omega arith)

-- For such outcomes the net amount is exactly what the lines are allowed.
pub net-eq-allowed :
    (outcomes : List LineOutcome)
    → All IsCounted outcomes
    → (employee_gross outcomes -ℤ disallowed_sum outcomes ≡ allowed_sum outcomes)
      × (pos 0 ≤ℤ allowed_sum outcomes)
net-eq-allowed [] h = net_of_nil
net-eq-allowed (o ∷ outcomes) h =
    let (same, nonneg) = net-eq-allowed outcomes h.1 in
    rw (allowed_sum-cons o outcomes) (elim h.0 [
      | inl (out, nothing) ↦
          let (gross, taken) = out_of_sums o outcomes out in
          rw (gross, taken, nothing, ← same) (omega int_laws, rw same (omega int_laws))
      | inr (counted, paid, made_up, allowed) ↦
          let (gross, taken) = in_sums o outcomes counted paid in
          rw (gross, taken, ← made_up, ← same) (omega int_laws, rw same (omega int_laws))
    ])
