-- ===== src/Models.antt =====
-- The enumerations of backend/src/expense_api/db/models.py and of policy/registry.py, and dates.
-- A test `x is X.A` is a Boolean function by clauses.
mod Enums
pub use Enums.*
use expense_reimbursement_ta.Prelude.{ℕ}

-- A date by its ordinal (`date.toordinal()`), and a datetime by its date and the second of the day.
abbrev pub Date : Type 0
Date = ℕ

pub record DateTime : Type 0 where
  pub day : Date
  pub second : ℕ
