-- ===== src/Ledger/Activation.antt =====
-- Which rules of packages/native/src/protocol.ts a block is read with.
use qlyphs_wallet.Prelude.{ℕ, Option, none, some, Bool, false, leb}
use qlyphs_wallet.Fees.State.{FeeRules}
use qlyphs_wallet.Wire.Decoding.{DecodeOptions}
use qlyphs_wallet.Ledger.Data.{Rules}

abbrev pub reached : Option ℕ → ℕ → Bool
reached none height = false
reached (some from) height = leb from height

abbrev pub progressive_active : Rules → ℕ → Bool
progressive_active rules height = reached rules.progressive height

abbrev pub progressive_v2_active : Rules → ℕ → Bool
progressive_v2_active rules height = reached rules.progressive_v2 height

abbrev pub from_of : Option FeeRules → Option ℕ
from_of none = none
from_of (some f) = some f.from

abbrev pub fee_schedule_active : Rules → ℕ → Bool
fee_schedule_active rules height = reached (from_of rules.fee_schedule) height

abbrev pub decode_options : Rules → ℕ → DecodeOptions
decode_options rules height = record {
  progressive = progressive_active rules height;
  progressive_v2 = progressive_v2_active rules height;
  fee_schedule = fee_schedule_active rules height;
}
