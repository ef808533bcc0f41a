-- ===== src/Trade.antt =====
-- The escrow trade: packages/shared/src/trade-machine.ts
pub mod Machine
pub mod Table
pub mod Finish
pub mod Stepper
pub mod History
pub mod Timeline
mod Tests
