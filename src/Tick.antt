-- ===== src/Tick.antt =====
-- The evaluation of expressions of tick/stateful.
pub mod Values
pub mod Functions
pub mod Eval
pub mod Binary
pub mod Expression
