-- ===== src/Js.antt =====
-- The parts of JavaScript's `number` that the sources use.
pub mod Int
pub mod Number
pub mod Decimal
