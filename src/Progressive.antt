-- ===== src/Progressive.antt =====
-- The progressive mint: packages/native/src/progressive-mint.ts
pub mod Quote
pub mod Sha512
pub mod Ticket
pub mod Settlement
pub mod Schedule
mod Tests
