-- ===== src/Policy.antt =====
-- backend/src/expense_api/policy: the parameters, the rules and their registry, the engine that
-- applies them to the lines of a claim, and the apportioning of a bill's tax.
pub mod Params
pub mod Decision
pub mod Decimal
pub mod Rules
pub mod Registry
pub mod Engine
pub mod Rev4
pub mod Tax
