-- ===== src/Approvals/Routing/Bands.antt =====
-- The approval matrix of Rev 4 (`roles_for_value` of approvals/routing.py).
use expense_reimbursement_ta.Prelude.{
  ◌≡◌, ◌⊎◌, refl, ◌&&◌, true, Bool, List, [], ◌∷◌, arith, if◌then◌else◌,
}
use expense_reimbursement_ta.Prelude.Int.{ℤ, pos, ◌≤ℤ◌, ◌<ℤ◌, leb_ℤ}
use expense_reimbursement_ta.Prelude.Result.{ok, err}
use expense_reimbursement_ta.Models.{Role}
use expense_reimbursement_ta.Policy.Params.{amount_of, elements, get_field, texts}
use expense_reimbursement_ta.Policy.Rev4.{rev4}
use expense_reimbursement_ta.Approvals.Routing.{
  no_band, roles_for_value, parse_roles, role_of_text, in_band,
}

abbrev to_manager : List Role
to_manager = Role.reporting_manager ∷ []

abbrev to_department : List Role
to_department = Role.reporting_manager ∷ Role.head_of_department ∷ []

abbrev to_division : List Role
to_division = Role.reporting_manager ∷ Role.head_of_department ∷ Role.head_of_division ∷ []

abbrev to_md : List Role
to_md = Role.reporting_manager ∷ Role.head_of_department ∷ Role.head_of_division ∷ Role.md ∷ []

within : ℤ → ℤ → ℤ → Bool
within v low high = leb_ℤ low v && leb_ℤ v high

matrix :
    (v : ℤ)
    → roles_for_value v rev4 ≡ (
        if within v (pos 0) (pos 2500000)
        then ok to_manager
        else if within v (pos 2500100) (pos 7500000)
        then ok to_department
        else if within v (pos 7500100) (pos 20000000)
        then ok to_division
        else if leb_ℤ (pos 20000100) v && true
        then ok to_md
        else err (no_band v))
unfolding roles_for_value in_band parse_roles role_of_text within elements get_field amount_of texts
matrix v = refl

-- Under Rev 4 a claim's value, in paise and not negative, needs the roles of its band: up to 25,000 rupees, from
-- 25,001 to 75,000, from 75,001 to 200,000, or from 200,001. A value strictly between the end of
-- one band and the start of the next has no band, and the code raises.
pub rev4_bands :
    (v : ℤ)
    → pos 0 ≤ℤ v
    → (v ≤ℤ pos 2500000 → roles_for_value v rev4 ≡ ok to_manager)
      × (pos 2500100 ≤ℤ v → v ≤ℤ pos 7500000 → roles_for_value v rev4 ≡ ok to_department)
      × (pos 7500100 ≤ℤ v → v ≤ℤ pos 20000000 → roles_for_value v rev4 ≡ ok to_division)
      × (pos 20000100 ≤ℤ v → roles_for_value v rev4 ≡ ok to_md)
      × ((pos 2500000 <ℤ v) × (v <ℤ pos 2500100)
            ⊎ (pos 7500000 <ℤ v) × (v <ℤ pos 7500100)
            ⊎ (pos 20000000 <ℤ v) × (v <ℤ pos 20000100)
          → roles_for_value v rev4 ≡ err (no_band v))
unfolding within
rev4_bands v h =
    let table = matrix v in
    (
      (λ a. ground arith),
      (λ a b. ground arith),
      (λ a b. ground arith),
      (λ a. ground arith),
      λ gap. ground arith,
    )
