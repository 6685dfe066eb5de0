-- ===== src/Check24.antt =====
-- The coupling with CHECK24 (src/check24).
pub mod Calendar
pub mod Bookings
pub mod ForceOpen
