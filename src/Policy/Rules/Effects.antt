-- ===== src/Policy/Rules/Effects.antt =====
-- What each rule of policy/rules removes from a line: the amounts behind the engine's sum.
use expense_reimbursement_ta.Prelude.{
  ℕ, ◌≡◌, refl, some, List, [], ◌∷◌, ◌++◌, arith, if◌then◌else◌, Option-cases, inl, inr, ◌⊎◌,
}
use expense_reimbursement_ta.Prelude.Int.{
  ℤ, pos, negsuc, ◌+ℤ◌, ◌-ℤ◌, ◌*ℤ◌, ◌≤ℤ◌, leb_ℤ, int_laws, +ℤ_parts, -ℤ_parts, +ℤ-zero,
}
use expense_reimbursement_ta.Models.{Date, ExpenseHead}
use expense_reimbursement_ta.Policy.Decision.{
  Decision, LineUnderReview, EvaluationContext, claimable, effects,
}
use expense_reimbursement_ta.Policy.Decimal.{per_unit}
use expense_reimbursement_ta.Policy.Registry.{registered_rules, apply_rules}
use expense_reimbursement_ta.Policy.Rules.Conveyance.{conveyance_actuals}
use expense_reimbursement_ta.Policy.Rules.Entertainment.{
  entertainment_attendees, entertainment_prior_approval,
}
use expense_reimbursement_ta.Policy.Rules.Lodging.{lodging_tariff_limit, tariff_limit, nights_of}
use expense_reimbursement_ta.Policy.Rules.Meals.{
  meals_daily_cap, meals_bill_threshold, daily_cap, claimed_on,
}
use expense_reimbursement_ta.Policy.Rules.NonReimbursable.{non_reimbursable_category}
use expense_reimbursement_ta.Policy.Rules.Proof.{proof_required}

pub effects-append : (ds es : List Decision) → effects (ds ++ es) ≡ effects ds +ℤ effects es
unfolding effects
effects-append [] es = omega int_laws
effects-append (d ∷ ds) es = rw (effects-append ds es) (omega int_laws)

effects-nil : effects [] ≡ pos 0
unfolding effects
effects-nil = refl

mul_nonneg : (a : ℤ) (n : ℕ) → pos 0 ≤ℤ a → pos 0 ≤ℤ a *ℤ pos n
unfolding ◌*ℤ◌
mul_nonneg (pos m) n h = ground arith
mul_nonneg (negsuc m) n h = absurd (omega arith)

module _ (line : LineUnderReview) (context : EvaluationContext) where
  effects-conveyance : effects (conveyance_actuals line context) ≡ pos 0
  unfolding effects conveyance_actuals ◌+ℤ◌
  effects-conveyance = ground arith

  effects-attendees : effects (entertainment_attendees line context) ≡ pos 0
  unfolding effects entertainment_attendees ◌+ℤ◌
  effects-attendees = ground arith

  effects-prior_approval : effects (entertainment_prior_approval line context) ≡ pos 0
  unfolding effects entertainment_prior_approval ◌+ℤ◌
  effects-prior_approval = ground arith

  pub effects-lodging : pos 0 ≤ℤ effects (lodging_tariff_limit line context)
  unfolding effects lodging_tariff_limit
  effects-lodging = elim (Option-cases (tariff_limit context)) [
    | inl unlimited ↦ ground (arith, +ℤ_parts (pos 0) (pos 0))
    | inr (l, e) ↦
        let n = nights_of line.nights in
        let over = per_unit line.gross_amount n -ℤ l in
        ground (
          arith,
          mul_nonneg over n,
          -ℤ_parts (per_unit line.gross_amount n) l,
          +ℤ_parts (over *ℤ pos n) (pos 0),
          +ℤ_parts (pos 0) (pos 0),
        )
  ]

  effects-bill : effects (meals_bill_threshold line context) ≡ pos 0
  unfolding effects meals_bill_threshold ◌+ℤ◌
  effects-bill = ground arith

  effects-proof : effects (proof_required line context) ≡ pos 0
  unfolding effects proof_required ◌+ℤ◌
  effects-proof = ground arith

  pub effects-non_reimbursable :
      (effects (non_reimbursable_category line context) ≡ pos 0)
      ⊎ (effects (non_reimbursable_category line context) ≡ claimable line)
  unfolding effects non_reimbursable_category ◌+ℤ◌
  effects-non_reimbursable = ground arith

  -- The rules that never remove anything drop out of the sum.
  pub effects-rules :
      effects (apply_rules registered_rules line context)
      ≡ effects (lodging_tariff_limit line context)
        +ℤ (effects (meals_daily_cap line context)
            +ℤ effects (non_reimbursable_category line context))
  unfolding apply_rules registered_rules
  effects-rules =
      simp
        (
          effects-append, effects-conveyance, effects-attendees, effects-prior_approval,
          effects-bill, effects-proof, effects-nil,
        )
        (omega int_laws)

  -- On a dated meal under a cap: the excess over what is left of the cap, or nothing.
  pub effects-meals_cap :
      (day : Date) (cap : ℤ)
      → line.head ≡ ExpenseHead.meals
      → line.line_date ≡ some day
      → daily_cap context ≡ some cap
      → effects (meals_daily_cap line context) ≡ (
          let total = claimed_on day context.meals_claimed_by_date +ℤ claimable line in
          if leb_ℤ total cap then pos 0 else total -ℤ cap)
  unfolding effects meals_daily_cap
  effects-meals_cap day cap h d c =
      let total = claimed_on day context.meals_claimed_by_date +ℤ claimable line in
      ground (arith, +ℤ-zero (pos 0), +ℤ-zero (total -ℤ cap))

  pub effects-meals_cap_nonneg : pos 0 ≤ℤ effects (meals_daily_cap line context)
  unfolding effects meals_daily_cap
  effects-meals_cap_nonneg = elim (Option-cases (daily_cap context)) [
    | inl uncapped ↦ ground arith
    | inr (cap, c) ↦ elim (Option-cases line.line_date) [
      | inl undated ↦ ground arith
      | inr (day, d) ↦
          let total = claimed_on day context.meals_claimed_by_date +ℤ claimable line in
          ground (arith, +ℤ-zero (pos 0), +ℤ-zero (total -ℤ cap), -ℤ_parts total cap)
    ]
  ]
