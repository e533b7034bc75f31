-- ===== src/Tests/Claims.antt =====
-- Claims at concrete inputs.
use expense_reimbursement_ta.Prelude.{
  ◌≤◌, ◌<◌, ◌≡◌, ◌⊎◌, ◌↔◌, refl, subst, zero, suc, true, false, not, ◌&&◌, Option, some, [], ◌∷◌,
  any, all, arith,
}
use expense_reimbursement_ta.Prelude.Int.{pos, ◌-ℤ◌, ◌≤ℤ◌}
use expense_reimbursement_ta.Prelude.Result.{ok}
use expense_reimbursement_ta.Models.{line_held, paid_by_company}
use expense_reimbursement_ta.Policy.Engine.{evaluate_lines}
use expense_reimbursement_ta.Claims.Summary.{SettlementSummary, is_excluded, summarise}
use expense_reimbursement_ta.Claims.Summary.Settlement.{summarise_settles}
use expense_reimbursement_ta.Claims.Summary.Net.{CompanySetAside}
use expense_reimbursement_ta.Claims.Lifecycle.{CivilDate, month_length, check_can_submit}
use expense_reimbursement_ta.Claims.Lifecycle.Submission.{evaluate_lines-can_submit}
use expense_reimbursement_ta.Claims.Lifecycle.Payment.{IsDate}
use expense_reimbursement_ta.Claims.Drafting.{find_coverage_gaps}
use expense_reimbursement_ta.Claims.Drafting.Gaps.{IsAmong, IsCovered, find_coverage_gaps_sound}
use expense_reimbursement_ta.Tests.Trip.{evaluation, lines, presets}

some_inj : {A : Type 0} {a b : A} → ◌≡◌ {A = Option A} (some a) (some b) → a ≡ b
some_inj e = cc

-- The summary of the three lines, with an advance of 500 rupees.
abbrev settled : SettlementSummary
settled = (summarise_settles (evaluate_lines lines evaluation presets) (pos 50000)).0

settled_ok : summarise (evaluate_lines lines evaluation presets) (pos 50000) ≡ ok settled
settled_ok = (summarise_settles (evaluate_lines lines evaluation presets) (pos 50000)).1

none_by_company : CompanySetAside lines presets
none_by_company zero l at company =
    let own : paid_by_company l.paid_by ≡ false =
      subst (λ x. paid_by_company x.paid_by ≡ false) (some_inj at) refl in
    cc
none_by_company (suc zero) l at company =
    let own : paid_by_company l.paid_by ≡ false =
      subst (λ x. paid_by_company x.paid_by ≡ false) (some_inj at) refl in
    cc
none_by_company (suc (suc zero)) l at company =
    let own : paid_by_company l.paid_by ≡ false =
      subst (λ x. paid_by_company x.paid_by ≡ false) (some_inj at) refl in
    cc
none_by_company (suc (suc (suc i))) l at company = let x = at in cc

summarise_settles_example :
    (s : SettlementSummary) × (summarise (evaluate_lines lines evaluation presets) (pos 50000)
      ≡ ok s)
    × (s.net_reimbursable ≡ s.employee_paid_gross -ℤ s.disallowed_total)
    × (pos 0 ≤ℤ s.payable)
    × (pos 0 ≤ℤ s.recoverable)
    × ((s.payable ≡ pos 0) ⊎ (s.recoverable ≡ pos 0))
    × (s.payable -ℤ s.recoverable ≡ s.net_reimbursable -ℤ pos 50000)
summarise_settles_example = summarise_settles (evaluate_lines lines evaluation presets) (pos 50000)

evaluate_lines-can_submit_example :
    ((check_can_submit (evaluate_lines lines evaluation presets)).can_submit ≡ (
      all (λ o. not (line_held o.status)) (evaluate_lines lines evaluation presets)
      && any (λ o. not (is_excluded o.status)) (evaluate_lines lines evaluation presets)))
    × (((check_can_submit (evaluate_lines lines evaluation presets)).can_submit ≡ true)
        ↔ ((check_can_submit (evaluate_lines lines evaluation presets)).blocking_reasons ≡ []))
evaluate_lines-can_submit_example = evaluate_lines-can_submit lines evaluation presets

abbrev boxing_day : CivilDate
boxing_day = record { year = 2025; month = 12; day = 26 }

boxing_day-IsDate : IsDate boxing_day
unfolding month_length
boxing_day-IsDate = record {
  month_low = omega arith;
  month_high = omega arith;
  day_low = omega arith;
  day_high = omega arith;
}

find_coverage_gaps_sound_example :
    IsAmong 103 (find_coverage_gaps 100 104 ((100, 3) ∷ []))
    ↔ ((100 ≤ 103) × (103 < 104) × (IsCovered 103 ((100, 3) ∷ []) → ⊥))
find_coverage_gaps_sound_example = find_coverage_gaps_sound 100 104 ((100, 3) ∷ []) 103
