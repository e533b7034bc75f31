-- ===== src/Claims/Rows.antt =====
-- The rows of a submitted claim (backend/src/expense_api/db/models.py), by the columns that the
-- code of claims/ and approvals/ reads and writes.
use expense_reimbursement_ta.Prelude.{ℕ, Bool, Option, List}
use expense_reimbursement_ta.Prelude.Int.{ℤ}
use expense_reimbursement_ta.Prelude.Text.{Text}
use expense_reimbursement_ta.Models.{
  Date, DateTime, Role, PaidBy, ExpenseHead, ApprovalDecision, ClaimStatus, ClaimLineStatus,
}
use expense_reimbursement_ta.Policy.Decision.{Decision, Reason}
use expense_reimbursement_ta.Approvals.Routing.{Note}
use expense_reimbursement_ta.Claims.Summary.{SettlementSummary}

-- What an approver wrote, or the routing's note on a level that is skipped.
pub data Remark : Type 0 where
  said : Text → Remark
  noted : Note → Remark

pub record ApprovalStep : Type 0 where
  pub sequence : ℕ
  pub role : Role
  pub approver_employee_id : Option ℕ
  pub decision : ApprovalDecision
  pub decided_at : Option DateTime
  pub remarks : Option Remark
  pub superseded : Bool
  pub submission_round : ℕ

pub record ClaimLine : Type 0 where
  pub head : ExpenseHead
  pub line_date : Option Date
  pub description : Text
  pub paid_by : PaidBy
  pub gross_amount : ℤ
  pub allowed_amount : ℤ
  pub disallowed_amount : ℤ
  pub status : ClaimLineStatus
  pub proof_ref : Option Text
  pub status_reason : Option Reason
  pub decisions : List Decision

pub record SettlementClaim : Type 0 where
  pub id : ℕ
  pub travel_request_id : ℕ
  pub status : ClaimStatus
  pub version : ℕ
  pub return_count : ℕ
  pub submitted_at : Option DateTime
  pub lines : List ClaimLine
  pub summary : Option SettlementSummary
  pub approval_steps : List ApprovalStep
