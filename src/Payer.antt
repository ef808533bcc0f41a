-- ===== src/Payer.antt =====
-- What a signer can spend: packages/native/src/balance.ts
pub mod Balance
pub mod Laws
mod Tests
