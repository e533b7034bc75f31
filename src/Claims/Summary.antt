-- ===== src/Claims/Summary.antt =====
-- claims/summary.py: rows 44 to 50 of the settlement form.
pub mod Settlement
pub mod Net
use expense_reimbursement_ta.Prelude.{
  Bool, true, false, not, ◌&&◌, List, map, filter, if◌then◌else◌,
}
use expense_reimbursement_ta.Prelude.Int.{ℤ, pos, ◌-ℤ◌, ltb_ℤ, max_ℤ, sum}
use expense_reimbursement_ta.Prelude.Result.{Result, ok, err}
use expense_reimbursement_ta.Models.{ClaimLineStatus, paid_by_company, paid_by_employee}
use expense_reimbursement_ta.Policy.Decision.{claimable}
use expense_reimbursement_ta.Policy.Engine.{LineOutcome}

-- `_EXCLUDED`
abbrev pub is_excluded : ClaimLineStatus → Bool
is_excluded ClaimLineStatus.rejected = true
is_excluded ClaimLineStatus.withdrawn = true
is_excluded ClaimLineStatus.memo = true
is_excluded _ = false

pub record SettlementSummary : Type 0 where
  pub employee_paid_gross : ℤ
  pub company_paid_memo : ℤ
  pub disallowed_total : ℤ
  pub net_reimbursable : ℤ
  pub advance_drawn : ℤ
  pub payable : ℤ
  pub recoverable : ℤ

-- The `ValueError` of `__post_init__`.
pub data SummaryError : Type 0 where
  not_exclusive : (payable recoverable : ℤ) → SummaryError

unfoldable pub post_init : SettlementSummary → Result SummaryError SettlementSummary
post_init s =
    if ltb_ℤ (pos 0) s.payable && ltb_ℤ (pos 0) s.recoverable
    then err (not_exclusive s.payable s.recoverable)
    else ok s

abbrev counts_for_employee : LineOutcome → Bool
counts_for_employee o = paid_by_employee o.line.paid_by && not (is_excluded o.status)

-- The three sums.
unfoldable pub employee_gross : List LineOutcome → ℤ
employee_gross outcomes = sum (map (λ o. claimable o.line) (filter counts_for_employee outcomes))

unfoldable pub company_memo : List LineOutcome → ℤ
company_memo outcomes =
    sum (map (λ o. claimable o.line) (filter (λ o. paid_by_company o.line.paid_by) outcomes))

unfoldable pub disallowed_sum : List LineOutcome → ℤ
disallowed_sum outcomes =
    sum (map (λ o. o.disallowed_amount) (filter (λ o. not (is_excluded o.status)) outcomes))

unfoldable pub summarise : List LineOutcome → ℤ → Result SummaryError SettlementSummary
unfolding post_init
summarise outcomes advance =
    let net = employee_gross outcomes -ℤ disallowed_sum outcomes in
    let difference = net -ℤ advance in
    post_init (record {
      employee_paid_gross = employee_gross outcomes;
      company_paid_memo = company_memo outcomes;
      disallowed_total = disallowed_sum outcomes;
      net_reimbursable = net;
      advance_drawn = advance;
      payable = max_ℤ difference (pos 0);
      recoverable = max_ℤ (pos 0 -ℤ difference) (pos 0);
    })
