-- ===== src/Approvals.antt =====
-- backend/src/expense_api/approvals: who has to approve a claim, and the decisions taken on it.
pub mod Routing
pub mod Service
pub mod Queue
