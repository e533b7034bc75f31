-- ===== src/Policy/Rules.antt =====
-- policy/rules: one module per clause group, as in the source.
pub mod Conveyance
pub mod Entertainment
pub mod Lodging
pub mod Meals
pub mod NonReimbursable
pub mod Proof
pub mod Effects
