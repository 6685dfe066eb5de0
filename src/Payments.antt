-- ===== src/Payments.antt =====
-- The payments that come in from the bank and PayPal (src/automation/payment-reconciliation.service.ts
-- and src/automation/payment-apply.service.ts).
pub mod Program
pub mod Table
pub mod Books
pub mod Apply
pub mod Desk
pub mod Filing
pub mod Reconcile
pub mod Review
pub mod Undo
pub mod Consistency
pub mod Lines
pub mod Invariant
pub mod Outcome
pub mod Charges
pub mod Taken
pub mod Rollback
pub mod Undoing
mod Tests
