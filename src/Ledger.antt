-- ===== src/Ledger.antt =====
-- The QLYP-v1 token ledger: packages/native/src/protocol.ts
pub mod Data
pub mod Change
pub mod Activation
pub mod Context
pub mod Rights
pub mod Purchase
pub mod Receipts
pub mod Invariants
pub mod Blocks
pub mod Offers
pub mod Apply
pub mod Replay
pub mod Supply
pub mod Conservation
pub mod LotsKept
pub mod Standing
pub mod LotRoom
pub mod SupplyKept
pub mod BlockSupply
pub mod BlockStanding
pub mod Rollback
pub mod Due
pub mod Paid
pub mod Abstract
pub mod Refinement
pub mod Failure
pub mod Outcome
pub mod Tests
pub mod BlockTests
