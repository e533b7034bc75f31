-- ===== src/Models/Enums.antt =====
-- The enumerations, by the source's members, and the membership tests that the code makes.
use expense_reimbursement_ta.Prelude.{ℕ, ◌≡◌, Bool, true, false, ◌==◌, arith}

pub data Role : Type 0 where
  employee reporting_manager head_of_department head_of_division md finance : Role

pub data CityClass : Type 0 where
  tier_1 tier_2 tier_3 : CityClass

pub data PaidBy : Type 0 where
  company employee : PaidBy

pub data ExpenseHead : Type 0 where
  lodging transport meals business_entertainment misc : ExpenseHead

pub data DocKind : Type 0 where
  approval_request approval_grant advance_notice flight_booking hotel_voucher hotel_invoice :
      DocKind
  cab_receipt restaurant_bill third_party_forward cab_payment_failure promotional unknown : DocKind

pub data ExtractionStatus : Type 0 where
  pending extracted needs_input failed not_applicable : ExtractionStatus

pub data ClaimLineStatus : Type 0 where
  allowed disallowed held rejected withdrawn memo : ClaimLineStatus

pub data ClaimStatus : Type 0 where
  draft pending_approval pending_finance verified scheduled_for_payment paid rejected : ClaimStatus

pub data ApprovalDecision : Type 0 where
  pending approved rejected returned : ApprovalDecision

-- The decisions that a request can carry: `Literal["approved", "rejected", "returned"]`.
pub data Verdict : Type 0 where
  approved rejected returned : Verdict

-- `ApprovalDecision(payload.decision)`
abbrev pub decision_of : Verdict → ApprovalDecision
decision_of Verdict.approved = ApprovalDecision.approved
decision_of Verdict.rejected = ApprovalDecision.rejected
decision_of Verdict.returned = ApprovalDecision.returned

-- `Outcome` of policy/registry.py, `DecisionOutcome` of db/models.py
pub data Outcome : Type 0 where
  allowed disallowed held rejected warning info : Outcome

abbrev rank : Role → ℕ
rank Role.employee = 0
rank Role.reporting_manager = 1
rank Role.head_of_department = 2
rank Role.head_of_division = 3
rank Role.md = 4
rank Role.finance = 5

abbrev pub same_role : Role → Role → Bool
same_role a b = rank a == rank b

pub same_role→eq : (a b : Role) → same_role a b ≡ true → a ≡ b
same_role→eq a b h = ground arith

abbrev pub is_finance : Role → Bool
is_finance Role.finance = true
is_finance _ = false

abbrev pub paid_by_company : PaidBy → Bool
paid_by_company PaidBy.company = true
paid_by_company PaidBy.employee = false

abbrev pub paid_by_employee : PaidBy → Bool
paid_by_employee PaidBy.company = false
paid_by_employee PaidBy.employee = true

abbrev pub is_meals : ExpenseHead → Bool
is_meals ExpenseHead.meals = true
is_meals _ = false

abbrev pub line_held : ClaimLineStatus → Bool
line_held ClaimLineStatus.held = true
line_held _ = false

abbrev pub is_disallowed : Outcome → Bool
is_disallowed Outcome.disallowed = true
is_disallowed _ = false

abbrev pub is_held : Outcome → Bool
is_held Outcome.held = true
is_held _ = false

abbrev pub claim_draft : ClaimStatus → Bool
claim_draft ClaimStatus.draft = true
claim_draft _ = false

abbrev pub is_pending : ApprovalDecision → Bool
is_pending ApprovalDecision.pending = true
is_pending _ = false

abbrev status_rank : ClaimStatus → ℕ
status_rank ClaimStatus.draft = 0
status_rank ClaimStatus.pending_approval = 1
status_rank ClaimStatus.pending_finance = 2
status_rank ClaimStatus.verified = 3
status_rank ClaimStatus.scheduled_for_payment = 4
status_rank ClaimStatus.paid = 5
status_rank ClaimStatus.rejected = 6

abbrev pub same_status : ClaimStatus → ClaimStatus → Bool
same_status a b = status_rank a == status_rank b

pub same_status→eq : (a b : ClaimStatus) → same_status a b ≡ true → a ≡ b
same_status→eq a b h = ground arith

-- `status in (ClaimLineStatus.REJECTED, ClaimLineStatus.MEMO)`
abbrev pub is_excluded_by_draft : ClaimLineStatus → Bool
is_excluded_by_draft ClaimLineStatus.rejected = true
is_excluded_by_draft ClaimLineStatus.memo = true
is_excluded_by_draft _ = false
