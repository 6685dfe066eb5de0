-- ===== src/Rules.antt =====
-- src/rules/approval-conditions.ts and src/rules/rules.service.ts: whether a guest's request is
-- approved at once, goes to the team, or is denied.
pub mod Clock
pub mod Conditions
pub mod Decision
mod Tests
