-- ===== src/Tests/Routing.antt =====
-- The routing of a chain at concrete inputs.
use expense_reimbursement_ta.Prelude.Text.{is_empty, is_member}
use expense_reimbursement_ta.Prelude.{
  ◌+◌, ◌≡◌, ◌⊎◌, refl, false, some, List, [], ◌∷◌, ◌++◌, map, length, arith, All, if◌then◌else◌,
}
use expense_reimbursement_ta.Prelude.Int.{pos, ◌≤ℤ◌, ◌<ℤ◌}
use expense_reimbursement_ta.Prelude.Result.{ok, err}
use expense_reimbursement_ta.Prelude.Text.{codes}
use expense_reimbursement_ta.Models.{Role}
use expense_reimbursement_ta.Policy.Rev4.{rev4}
use expense_reimbursement_ta.Approvals.Routing.{
  ChainStep, ancestors, directory_of, employee, finance_always, finance_step, max_depth, no_band,
  required_roles, roles_for_value,
}
use expense_reimbursement_ta.Approvals.Routing.Bands.{rev4_bands}
use expense_reimbursement_ta.Approvals.Routing.Chain.{IsLevel, Numbered, resolve_chain_sound}
use expense_reimbursement_ta.Approvals.Routing.Line.{directory_of-IsKeyed}
use expense_reimbursement_ta.Tests.Settled.{chain, chained}
use expense_reimbursement_ta.Tests.Trip.{asha, people, ravi, meera}

second_employee : employee (codes "E2") (directory_of people) ≡ some ravi
unfolding employee directory_of
second_employee = refl

two_above : ancestors asha (directory_of people) max_depth ≡ ok (ravi ∷ meera ∷ [])
unfolding ancestors directory_of is_empty is_member employee
two_above = refl

resolve_chain_sound_example :
    (banded : List Role) × (business : List ChainStep) × (roles_for_value (pos 17200) rev4
      ≡ ok banded)
    × (map (λ s. s.role) business ≡ required_roles false rev4 banded)
    × All (IsLevel asha) business
    × Numbered 1 chain
    × (chain ≡ (
        if finance_always rev4
        then business ++ finance_step (length business + 1) (directory_of people) ∷ []
        else business))
resolve_chain_sound_example =
    resolve_chain_sound (pos 17200) asha (directory_of people) rev4 false chain
      (directory_of-IsKeyed people) chained

rev4_bands_example :
    (pos 2500050 ≤ℤ pos 2500000
      → roles_for_value (pos 2500050) rev4 ≡ ok (Role.reporting_manager ∷ []))
    × (pos 2500100 ≤ℤ pos 2500050
        → pos 2500050 ≤ℤ pos 7500000
        → roles_for_value (pos 2500050) rev4
          ≡ ok (Role.reporting_manager ∷ Role.head_of_department ∷ []))
    × (pos 7500100 ≤ℤ pos 2500050
        → pos 2500050 ≤ℤ pos 20000000
        → roles_for_value (pos 2500050) rev4
          ≡ ok (Role.reporting_manager ∷ Role.head_of_department ∷ Role.head_of_division ∷ []))
    × (pos 20000100 ≤ℤ pos 2500050
        → roles_for_value (pos 2500050) rev4
          ≡ ok (
              Role.reporting_manager ∷ Role.head_of_department ∷ Role.head_of_division ∷ Role.md
              ∷ []))
    × ((pos 2500000 <ℤ pos 2500050) × (pos 2500050 <ℤ pos 2500100)
          ⊎ (pos 7500000 <ℤ pos 2500050) × (pos 2500050 <ℤ pos 7500100)
          ⊎ (pos 20000000 <ℤ pos 2500050) × (pos 2500050 <ℤ pos 20000100)
        → roles_for_value (pos 2500050) rev4 ≡ err (no_band (pos 2500050)))
rev4_bands_example = rev4_bands (pos 2500050) (omega arith)
