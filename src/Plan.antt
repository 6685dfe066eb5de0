-- ===== src/Plan.antt =====
-- The payment plan of a reservation (src/automation/payment-plan.util.ts and payment-plan.service.ts).
pub mod Calendar
pub mod DueDate
pub mod Ledger
mod Tests
