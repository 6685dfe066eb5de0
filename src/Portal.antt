-- ===== src/Portal.antt =====
-- src/automation/portal-payment-rules.util.ts: the payment rule of each booking portal, which rule
-- a reservation falls under, and what is still outstanding under it.
pub mod Rule
pub mod Defaults
pub mod Matching
pub mod Balance
