-- ===== src/Policy/Rules/Entertainment.antt =====
-- policy/rules/entertainment.py
use expense_reimbursement_ta.Prelude.{Option, none, some, List, [], ◌∷◌, if◌then◌else◌, or_else}
use expense_reimbursement_ta.Prelude.Int.{ℤ, pos, leb_ℤ}
use expense_reimbursement_ta.Prelude.Text.{Text, codes}
use expense_reimbursement_ta.Models.{ExpenseHead, Outcome}
use expense_reimbursement_ta.Policy.Params.{limit, amount_of, text_of}
use expense_reimbursement_ta.Policy.Decision.{
  RuleId, Clause, Reason, Decision, LineUnderReview, EvaluationContext, RuleFn, claimable,
}

abbrev decide : RuleId → Outcome → Reason → List Decision
decide id o r =
    record { rule_id = id; outcome = o; reason = r; citation = Clause.s3_5; amount_effect = pos 0 }
    ∷ []

attendees_decision : List Text → List Decision
attendees_decision [] = decide RuleId.entertainment_attendees Outcome.held Reason.attendees_missing
attendees_decision (n ∷ names) =
    decide RuleId.entertainment_attendees Outcome.allowed (Reason.attendees_recorded (n ∷ names))

attendees_for : ExpenseHead → EvaluationContext → List Decision
attendees_for ExpenseHead.business_entertainment context =
    attendees_decision context.entertainment_attendees
attendees_for _ context = []

unfoldable pub entertainment_attendees : RuleFn
unfolding attendees_for attendees_decision
entertainment_attendees line context = attendees_for line.head context

abbrev threshold_path : List Text
threshold_path = codes "business_entertainment" ∷ codes "prior_approval_threshold" ∷ []

abbrev role_path : List Text
role_path = codes "business_entertainment" ∷ codes "prior_approval_role" ∷ []

approving_role : EvaluationContext → Text
approving_role context =
    or_else (text_of (limit context.params role_path)) (codes "Head of Department")

over_threshold : ℤ → ℤ → EvaluationContext → List Decision
over_threshold amount threshold context =
    if context.entertainment_prior_approval
    then decide RuleId.entertainment_prior_approval Outcome.allowed
        (Reason.prior_approval_on_file (approving_role context))
    else decide RuleId.entertainment_prior_approval Outcome.held
        (Reason.prior_approval_missing amount threshold (approving_role context))

at_threshold : Option ℤ → ℤ → EvaluationContext → List Decision
at_threshold none amount context = []
at_threshold (some threshold) amount context =
    if leb_ℤ amount threshold then [] else over_threshold amount threshold context

prior_approval_for : ExpenseHead → LineUnderReview → EvaluationContext → List Decision
prior_approval_for ExpenseHead.business_entertainment line context =
    at_threshold (amount_of (limit context.params threshold_path)) (claimable line) context
prior_approval_for _ line context = []

unfoldable pub entertainment_prior_approval : RuleFn
unfolding prior_approval_for at_threshold over_threshold approving_role
entertainment_prior_approval line context = prior_approval_for line.head line context
