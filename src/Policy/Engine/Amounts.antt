-- ===== src/Policy/Engine/Amounts.antt =====
-- The amounts and the status of one evaluated line (`_evaluate_one` of policy/engine.py).
use expense_reimbursement_ta.Prelude.{
  suc, ◌+◌, ◌≤◌, Bool-cases, leb→le, ◌≡◌, refl, ap, ◌↔◌, ◌⊎◌, inl, inr, true, false, some, arith,
  any,
}
use expense_reimbursement_ta.Prelude.Int.{
  min_ℤ-cases, pos_part, neg_part, ℤ, pos, ◌+ℤ◌, ◌-ℤ◌, ◌≤ℤ◌, ◌<ℤ◌, leb_ℤ, min_ℤ, int_laws,
}
use expense_reimbursement_ta.Models.{Date, ClaimLineStatus, ExpenseHead, is_held}
use expense_reimbursement_ta.Policy.Decision.{
  LineUnderReview, EvaluationContext, claimable, effects,
}
use expense_reimbursement_ta.Policy.Registry.{registered_rules, apply_rules}
use expense_reimbursement_ta.Policy.Rules.Meals.{daily_cap, claimed_on, meals_daily_cap}
use expense_reimbursement_ta.Policy.Rules.Effects.{
  effects-rules, effects-lodging, effects-meals_cap, effects-meals_cap_nonneg,
  effects-non_reimbursable,
}
use expense_reimbursement_ta.Policy.Engine.{LineOutcome, evaluate_one, line_status}

-- No line is paid less than nothing; what is allowed and what is disallowed make up the line.
abbrev pub IsSplit : LineUnderReview → LineOutcome → Type 0
IsSplit line o =
    (o.line ≡ line)
    × (o.allowed_amount +ℤ o.disallowed_amount ≡ claimable line)
    × (pos 0 ≤ℤ o.allowed_amount)
    × (pos 0 ≤ℤ claimable line
        → (pos 0 ≤ℤ o.disallowed_amount) × (o.allowed_amount ≤ℤ claimable line))

-- The same of the two numbers that the engine subtracts.
split_of_min :
    (taken claim : ℤ)
    → (pos 0 ≤ℤ taken) ⊎ (claim ≤ℤ taken)
    → (claim -ℤ min_ℤ taken claim +ℤ min_ℤ taken claim ≡ claim)
      × (pos 0 ≤ℤ claim -ℤ min_ℤ taken claim)
      × (pos 0 ≤ℤ claim → (pos 0 ≤ℤ min_ℤ taken claim) × (claim -ℤ min_ℤ taken claim ≤ℤ claim))
split_of_min taken claim h = elim (min_ℤ-cases taken claim) [
  | inl (e, le) ↦ rw e (omega int_laws, omega int_laws, λ k. (omega int_laws, omega int_laws))
  | inr (e, le) ↦ rw e (omega int_laws, omega int_laws, λ k. (omega int_laws, omega int_laws))
]

left_nothing :
    (taken claim : ℤ) → (claim -ℤ min_ℤ taken claim ≡ pos 0) ↔ (claim ≤ℤ min_ℤ taken claim)
left_nothing taken claim = elim (min_ℤ-cases taken claim) [
  | inl (e, le) ↦
      rw e
        (λ z. let k = ap pos_part z in let m = ap neg_part z in omega int_laws, λ k. omega int_laws)
  | inr (e, le) ↦ rw e (λ z. omega int_laws, λ k. omega int_laws)
]

within_rest :
    (already claim cap taken : ℤ)
    → already ≤ℤ cap
    → (pos 0 ≤ℤ taken) ⊎ (claim ≤ℤ taken)
    → (already +ℤ claim ≤ℤ cap) ⊎ (already +ℤ claim -ℤ cap ≤ℤ taken)
    → already +ℤ (claim -ℤ min_ℤ taken claim) ≤ℤ cap
within_rest already claim cap taken below low high = elim (min_ℤ-cases taken claim) [
  | inl (e, le) ↦ rw e (omega int_laws)
  | inr (e, le) ↦ rw e (omega int_laws)
]

module _ (line : LineUnderReview) (context : EvaluationContext) where
  abbrev removed_sum : ℤ
  removed_sum = effects (apply_rules registered_rules line context)

  -- The rules take nothing from a line that is worth something, and at most all of one that is not.
  removed_sum_bound : (pos 0 ≤ℤ removed_sum) ⊎ (claimable line ≤ℤ removed_sum)
  removed_sum_bound =
      let lodging = effects-lodging line context in
      let meals = effects-meals_cap_nonneg line context in
      rw (effects-rules line context) (elim (effects-non_reimbursable line context) [
        | inl e ↦ rw e (inl (omega int_laws))
        | inr e ↦ rw e (inr (omega int_laws))
      ])

  -- What is allowed and what is disallowed make up the claimable amount of a judged line, and what
  -- is allowed is not negative. If the claimable amount is not negative, neither is what is
  -- disallowed, and no more than the amount is allowed.
  pub evaluate_one-IsSplit : IsSplit line (evaluate_one line context)
  unfolding evaluate_one
  evaluate_one-IsSplit =
      let (made_up, nonneg, bounded) =
        split_of_min removed_sum (claimable line) removed_sum_bound in
      (refl, made_up, nonneg, bounded)

  -- A judged line is held exactly when one of its decisions is, and disallowed exactly when none is
  -- held, nothing is allowed and something was claimed.
  pub evaluate_one-status :
      let o = evaluate_one line context in
      ((o.status ≡ ClaimLineStatus.held) ↔ (any (λ d. is_held d.outcome) o.decisions ≡ true))
      × ((o.status ≡ ClaimLineStatus.disallowed) ↔ (
          (any (λ d. is_held d.outcome) o.decisions ≡ false)
          × (o.allowed_amount ≡ pos 0)
          × (pos 0 <ℤ claimable line)))
  unfolding evaluate_one line_status
  evaluate_one-status = ground (
    arith,
    (left_nothing removed_sum (claimable line)).0,
    (left_nothing removed_sum (claimable line)).1,
  )

  over_cap_removed :
      (day : Date) (cap : ℤ)
      → line.head ≡ ExpenseHead.meals
      → line.line_date ≡ some day
      → daily_cap context ≡ some cap
      → claimed_on day context.meals_claimed_by_date ≤ℤ cap
      → let total = claimed_on day context.meals_claimed_by_date +ℤ claimable line in
        (total ≤ℤ cap) ⊎ (total -ℤ cap ≤ℤ removed_sum)
  over_cap_removed day cap h d c below =
      let total = claimed_on day context.meals_claimed_by_date +ℤ claimable line in
      let lodging = effects-lodging line context in
      let meals = effects-meals_cap line context day cap h d c in
      elim (Bool-cases (leb_ℤ total cap)) [
        | inl within ↦ inl (leb→le _ _ within)
        | inr over ↦
            let past : suc (pos_part cap + neg_part total) ≤ pos_part total + neg_part cap =
              ground arith in
            let excess : effects (meals_daily_cap line context) ≡ total -ℤ cap = rw over at meals in
            inr (
              rw (effects-rules line context, excess)
                (elim (effects-non_reimbursable line context) [
                  | inl e ↦ rw e (omega int_laws)
                  | inr e ↦ rw e (omega int_laws)
                ]))
      ]

  -- A dated meal under a cap gets at most what the day has left.
  pub allowed_within_cap :
      (day : Date) (cap : ℤ)
      → line.head ≡ ExpenseHead.meals
      → line.line_date ≡ some day
      → daily_cap context ≡ some cap
      → claimed_on day context.meals_claimed_by_date ≤ℤ cap
      → claimed_on day context.meals_claimed_by_date +ℤ (evaluate_one line context).allowed_amount
        ≤ℤ cap
  unfolding evaluate_one
  allowed_within_cap day cap h d c below =
      let already = claimed_on day context.meals_claimed_by_date in
      within_rest already (claimable line) cap removed_sum below removed_sum_bound
        (over_cap_removed day cap h d c below)
