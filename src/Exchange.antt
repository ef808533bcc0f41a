-- ===== src/Exchange.antt =====
-- Amounts, fills, swaps and price checks of the exchange: packages/shared/src
pub mod Amounts
pub mod Rounding
pub mod Fill
pub mod Swap
pub mod Budget
pub mod Guardrail
pub mod Rank
mod Tests
