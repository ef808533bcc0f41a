-- ===== src/Lib.antt =====
-- Qlyphs wallet: the rules of the QLYP-v1 token protocol and the arithmetic of its exchange.
--
-- The protocol (packages/native/src) is a reducer over blocks of the Quantus chain: every reader replays
-- the same blocks and must reach the same state. `applyOperation` of protocol.ts applies one signed
-- operation to the ledger; an operation that governs fees goes on to `applyFeeRate` and `applyFeeAdmin`
-- of fee-schedule.ts, and a progressive deploy asks progressive-mint.ts for a quote. Before signing, a
-- wallet checks the payer's balance (balance.ts). The exchange (packages/shared/src) matches a seller's
-- QTC with a buyer's dollars: an offer is filled in parts (money.ts), priced by a book of levels (swap.ts),
-- guarded against odd prices (guardrail.ts), and settled by an escrow trade (trade-machine.ts).
--
-- Files and what they model:
--   Operations        types of packages/native/src/codec.ts
--   Refusal           the messages that the native rules throw with
--   Wire              packages/native/src/codec.ts: Reader, encode, decode,
--                     callBytes and parseCall
--   Fees              packages/native/src/fee-schedule.ts and tickers.ts
--   Progressive       packages/native/src/progressive-mint.ts: quotes, lots, fees and
--                     tickets, and sha512.ts
--   Ledger            packages/native/src/protocol.ts: the reducer, from one
--                     operation to blocks and rollback
--   Wallet            packages/native/src/commands.ts: the calls that a wallet builds
--   Payer             packages/native/src/balance.ts
--   Trade             packages/shared/src/trade-machine.ts
--   Exchange          packages/shared/src/money.ts, swap.ts, guardrail.ts and rank.ts
--   Prelude           lists, texts, maps and results; no code of the repository
--
-- How the code corresponds: an object is a record and an operation that changes it returns the new
-- record; a throw is `err` with its message as a constructor; `null` and `undefined` are `none`; a bigint
-- or a number that the code keeps at zero or above is a natural number, and a subtraction is written
-- where the code has checked that it does not go below zero; an id in canonical hex is the number that
-- its bytes spell; a `Map` is the list of its entries in insertion order, with `set` replacing in place
-- or appending. Names are the source's in lower case with underscores.
--
-- Bounds and fuel: the loop over the resets of a fee schedule runs on as much fuel as there are resets,
-- since each round takes one; the width of a compact integer is found within twelve rounds from four
-- bytes, enough for sixteen; the search for a swap runs on as much fuel as there are steps to choose
-- from, and its theorem includes that this is enough.
--
-- Not modelled: checks that untyped JSON has the right shape, the texts of error messages, and of
-- protocol.ts the restoring of checkpoints. The browser apps, the
-- providers, the HTTP clients and the generated bindings are outside the development.
mod Prelude
pub mod Refusal
pub mod Operations
pub mod Fees
pub mod Trade
pub mod Wallet
pub mod Progressive
pub mod Wire
pub mod Ledger
pub mod Exchange
pub mod Payer
