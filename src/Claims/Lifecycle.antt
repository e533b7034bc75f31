-- ===== src/Claims/Lifecycle.antt =====
-- claims/lifecycle.py: the transition table, submission gating, deadlines and payment runs.
pub mod Transitions
pub mod Submission
pub mod Payment
use expense_reimbursement_ta.Prelude.{
  ℕ, ◌+◌, ◌%◌, Bool, true, false, not, ◌&&◌, ◌||◌, Option, none, some, List, [], ◌∷◌, ◌++◌, map,
  ltb, leb, ◌==◌, if◌then◌else◌, or_else, any,
}
use expense_reimbursement_ta.Prelude.Int.{ℤ, pos, pos_part, leb_ℤ}
use expense_reimbursement_ta.Prelude.Text.{Text}
use expense_reimbursement_ta.Prelude.Result.{Result, ok, err}
use expense_reimbursement_ta.Models.{Date, ClaimStatus, same_status, line_held}
use expense_reimbursement_ta.Policy.Decimal.{Decimal, multiply, half_even}
use expense_reimbursement_ta.Policy.Decision.{Reason}
use expense_reimbursement_ta.Policy.Engine.{LineOutcome, blocking_reasons}
use expense_reimbursement_ta.Claims.Summary.{is_excluded}
use Prim.Native.Nat.{◌^◌}

-- `TRANSITIONS`
unfoldable pub transitions : ClaimStatus → List ClaimStatus
transitions ClaimStatus.draft = ClaimStatus.pending_approval ∷ []
transitions ClaimStatus.pending_approval =
    ClaimStatus.pending_approval ∷ ClaimStatus.pending_finance ∷ ClaimStatus.draft
    ∷ ClaimStatus.rejected ∷ []
transitions ClaimStatus.pending_finance =
    ClaimStatus.verified ∷ ClaimStatus.draft ∷ ClaimStatus.rejected ∷ []
transitions ClaimStatus.verified = ClaimStatus.scheduled_for_payment ∷ []
transitions ClaimStatus.scheduled_for_payment = ClaimStatus.paid ∷ []
transitions ClaimStatus.paid = []
transitions ClaimStatus.rejected = []

pub data TransitionError : Type 0 where
  cannot_go : (current target : ClaimStatus) → TransitionError

unfoldable pub assert_transition : ClaimStatus → ClaimStatus → Result TransitionError (Unit {0})
unfolding transitions
assert_transition current target =
    if any (same_status target) (transitions current) then ok tt else err (cannot_go current target)

-- A line's description with one of its reasons, or the reason that no line is left.
pub data Blocking : Type 0 where
  line_blocked : Text → Reason → Blocking
  no_reimbursable_lines : Blocking

pub record SubmissionCheck : Type 0 where
  pub can_submit : Bool
  pub blocking_reasons : List Blocking

held_reasons : List LineOutcome → List Blocking
held_reasons [] = []
held_reasons (o ∷ rest) =
    let more = held_reasons rest in
    if line_held o.status
    then map (line_blocked o.line.description) (blocking_reasons o.decisions) ++ more
    else more

abbrev is_nil : List Blocking → Bool
is_nil [] = true
is_nil (_ ∷ _) = false

unfoldable pub check_can_submit : List LineOutcome → SubmissionCheck
unfolding held_reasons
check_can_submit outcomes =
    let reasons =
      held_reasons outcomes
      ++ (if any (λ o. not (is_excluded o.status)) outcomes
          then []
          else no_reimbursable_lines ∷ []) in
    record { can_submit = is_nil reasons; blocking_reasons = reasons }

unfoldable pub submission_deadline : Date → ℕ → Date
submission_deadline return_date days = return_date + days

unfoldable pub is_overdue : Date → Option Date → Date → ℕ → Bool
unfolding submission_deadline
is_overdue return_date submitted_at today days =
    ltb (submission_deadline return_date days) (or_else submitted_at today)

-- A date by its calendar fields.
pub record CivilDate : Type 0 where
  pub year : ℕ
  pub month : ℕ
  pub day : ℕ

abbrev is_leap : ℕ → Bool
is_leap y = (y % 4 == 0) && (not (y % 100 == 0) || (y % 400 == 0))

-- `calendar.monthrange(year, month)[1]`
unfoldable pub month_length : ℕ → ℕ → ℕ
month_length y m =
    if m == 2
    then (if is_leap y then 29 else 28)
    else if (m == 4) || (m == 6) || (m == 9) || (m == 11)
    then 30
    else 31

-- The constructor `date`; `none` is its `ValueError`.
unfoldable pub civil_date : ℕ → ℕ → ℕ → Option CivilDate
unfolding month_length
civil_date y m d =
    if leb 1 m && leb m 12 && leb 1 d && leb d (month_length y m)
    then some (record { year = y; month = m; day = d })
    else none

insert_day : ℕ → List ℕ → List ℕ
insert_day d [] = d ∷ []
insert_day d (e ∷ days) = let rest = insert_day d days in if ltb e d then e ∷ rest else d ∷ e ∷ days

sort_days : List ℕ → List ℕ
unfolding insert_day
sort_days [] = []
sort_days (d ∷ days) = insert_day d (sort_days days)

-- `run_days or [10, 25]`
abbrev days_or_default : Option (List ℕ) → List ℕ
days_or_default none = 10 ∷ 25 ∷ []
days_or_default (some []) = 10 ∷ 25 ∷ []
days_or_default (some (d ∷ days)) = d ∷ days

-- The loop: the first run day left in this month.
run_this_month : List ℕ → CivilDate → Option ℕ
run_this_month [] after = none
run_this_month (d ∷ days) after =
    if leb after.day d && leb d (month_length after.year after.month)
    then some d
    else run_this_month days after

abbrev first_day : List ℕ → ℕ
first_day [] = 0
first_day (d ∷ _) = d

run_on : Option ℕ → List ℕ → CivilDate → Option CivilDate
run_on (some d) days after = civil_date after.year after.month d
run_on none days after =
    civil_date (if after.month == 12 then after.year + 1 else after.year)
      (if after.month == 12 then 1 else after.month + 1) (first_day days)

unfoldable pub next_payment_run : CivilDate → Option (List ℕ) → Option CivilDate
unfolding run_on run_this_month sort_days civil_date month_length
next_payment_run after run_days =
    let days = sort_days (days_or_default run_days) in run_on (run_this_month days after) days after

pub data AdvanceMessage : Type 0 where
  no_estimate : AdvanceMessage
  within_ceiling : (advance ceiling : ℤ) → AdvanceMessage
  exceeds_ceiling : (advance ceiling estimate : ℤ) → AdvanceMessage

pub record AdvanceCheck : Type 0 where
  pub within_policy : Bool
  pub message : AdvanceMessage

-- `(estimate * Decimal(str(max_fraction))).quantize(Decimal("0.01"))`, of a positive estimate
unfoldable pub ceiling_of : ℤ → Decimal → ℤ
unfolding multiply half_even
ceiling_of estimate fraction =
    let x = multiply fraction (pos_part estimate) in pos (half_even x.coefficient (10 ^ x.scale))

unfoldable pub check_advance_against_estimate : ℤ → ℤ → Decimal → AdvanceCheck
check_advance_against_estimate advance estimate max_fraction =
    let ceiling = ceiling_of estimate max_fraction in
    if leb_ℤ estimate (pos 0)
    then record { within_policy = false; message = no_estimate }
    else if leb_ℤ advance ceiling
    then record { within_policy = true; message = within_ceiling advance ceiling }
    else record { within_policy = false; message = exceeds_ceiling advance ceiling estimate }
