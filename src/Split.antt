-- ===== src/Split.antt =====
-- The hint of a combined deposit (src/automation/payment-split-hint.util.ts).
pub mod Names
pub mod Amounts
mod Tests
