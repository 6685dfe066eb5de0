-- ===== src/Matching.antt =====
-- Which reservation a payment is for (src/automation/payment-matcher.service.ts: match).
pub mod Evidence
pub mod Hint
pub mod Decision
pub mod Ranking
pub mod Certainty
pub mod Service
mod Tests
