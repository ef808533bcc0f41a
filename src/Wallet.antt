-- ===== src/Wallet.antt =====
-- What a wallet signs: packages/native/src/commands.ts
pub mod Commands
pub mod Built
mod Tests
