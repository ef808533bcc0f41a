-- ===== src/Fees.antt =====
-- packages/native/src/fee-schedule.ts
pub mod Rate
pub mod Exact
pub mod State
pub mod Check
pub mod Roles
pub mod Moves
pub mod Governance
pub mod Start
pub mod Run
pub mod Timely
pub mod Notice
pub mod Allowed
mod Tests
