-- ===== src/Claims.antt =====
-- backend/src/expense_api/claims: what a claim is, from a line to the submitted rows.
pub mod Summary
pub mod Lifecycle
pub mod Rows
pub mod Materialise
pub mod Attribution
pub mod Drafting
pub mod Pipeline
pub mod Serialisers
pub mod Trips
pub mod Withdrawals
