-- ===== src/Ledger/BlockTests.antt =====
-- Receipts and blocks of packages/native/src/protocol.ts at concrete inputs: a deploy that pays its fee.
use qlyphs_wallet.Prelude.{
  ℕ, ◌+◌, ◌≡◌, refl, arith, List, [], ◌∷◌, ◌++◌, replicate, none, some, ok, same_text, true,
}
use qlyphs_wallet.Operations.{qlyphs_fee_account}
use qlyphs_wallet.Fees.Rate.{is_rate_derived, is_symbol, legacy_fee, legacy_deploy_fee}
use qlyphs_wallet.Wire.Bytes.{
  asset_id, uint, low_bytes, spelled, compact, width_from, vec, id_bytes,
}
use qlyphs_wallet.Wire.Calls.{Call, call_bytes}
use qlyphs_wallet.Wire.Reading.{read_int, read_bytes, read_end, little_endian}
use qlyphs_wallet.Wire.Compact.{read_compact, read_mode}
use qlyphs_wallet.Wire.Fields.{read_id, read_vector}
use qlyphs_wallet.Wire.Payload.{encode, operation_bytes}
use qlyphs_wallet.Wire.Decoding.{decode, read_operation, read_text}
use qlyphs_wallet.Ledger.Data.{
  State, Receipt, accepted, remarked_event, paid_event, batch_completed_event,
}
use qlyphs_wallet.Ledger.Context.{
  fee_batch_call, require_context, require_rate_fee, require_exact_fee, batch_receipt,
  declared_payload,
}
use qlyphs_wallet.Ledger.Apply.{apply_operation, apply_kind, deploy_asset}
use qlyphs_wallet.Wire.Parsing.{parse_call, read_call, read_batch, read_calls}
use qlyphs_wallet.Progressive.Ticket.{read_settlement, parse_settlement, settlement_call}
use qlyphs_wallet.Fees.State.{step_fees}
use qlyphs_wallet.Ledger.Receipts.{attempt, Applied, apply_receipt, track_multisigs, operate}
use qlyphs_wallet.Ledger.Purchase.{end_tickets, expire_tickets}
use qlyphs_wallet.Ledger.Invariants.{assert_invariants, progressive_holds}
use qlyphs_wallet.Ledger.Supply.{Sound, held, locked_in}
use qlyphs_wallet.Ledger.Blocks.{
  Block, NativeIndexer, check_block, apply_receipts, block_state, apply_block, rollback,
}
use qlyphs_wallet.Ledger.BlockSupply.{apply_receipt-Sound}
use qlyphs_wallet.Ledger.Rollback.{rollback-apply_block, undone, apply_block-recorded}
use qlyphs_wallet.Prelude.Maps.{get, number_key}
use qlyphs_wallet.Ledger.Outcome.{Outcome}
use qlyphs_wallet.Ledger.Tests.{at_start, legacy_rules, deployed, start-Sound}

abbrev pub deploy_payload : List ℕ
deploy_payload =
    0x51
    ∷ 0x4c
    ∷ 0x59
    ∷ 0x50
    ∷ 1
    ∷ (replicate 31 0
        ++ (99
            ∷ (replicate 8 0
                ++ (0
                    ∷ 8
                    ∷ 81
                    ∷ 81
                    ∷ 0
                    ∷ 100
                    ∷ (replicate 15 0 ++ (60 ∷ (replicate 15 0 ++ (0 ∷ []))))))))

abbrev deploy_call : Call
deploy_call = fee_batch_call deploy_payload legacy_deploy_fee

abbrev pub deploy_bytes : List ℕ
deploy_bytes =
    9
    ∷ 2
    ∷ 8
    ∷ 0
    ∷ 7
    ∷ 77
    ∷ 1
    ∷ (deploy_payload
        ++ (2 ∷ 3 ∷ 0 ∷ 0x21 ∷ 0x39 ∷ 0xa5 ∷ 0x75 ∷ 0x32 ∷ 0xfb ∷ 0xf4 ∷ 0x76 ∷ 0x4a ∷ 0xd9 ∷ 0x57
            ∷ 0x54 ∷ 0xc1 ∷ 0x75 ∷ 0x45 ∷ 0xfe ∷ 0xd7 ∷ 0xaf ∷ 0x91 ∷ 0x5f ∷ 0xb0 ∷ 0x08 ∷ 0xb6
            ∷ 0x49 ∷ 0x4b ∷ 0x02 ∷ 0xe5 ∷ 0x03 ∷ 0x08 ∷ 0x4d ∷ 0xa8 ∷ 0xb3 ∷ 7 ∷ 0 ∷ 0x10 ∷ 0xa5
            ∷ 0xd4 ∷ 0xe8 ∷ []))

abbrev paying : Receipt
paying = record {
  index = 2;
  hash = 5;
  signer = some 7;
  call_hex = deploy_bytes;
  success = true;
  events =
      remarked_event 7
      ∷ paid_event 7 qlyphs_fee_account legacy_deploy_fee
      ∷ batch_completed_event
      ∷ [];
}

abbrev a_block : Block
a_block = record {
  height = 11;
  hash = 2;
  parent = 1;
  spec = 152;
  tx_version = 6;
  finalized = 9;
  receipts = paying ∷ [];
}

abbrev after_block : State
after_block = record deployed {
  height = 11;
  hash = 2;
  journal = record { height = 11; index = 2; verdict = accepted } ∷ [];
}

call_test : parse_call 4 deploy_bytes ≡ ok deploy_call
unfolding parse_call read_call read_batch read_calls read_vector read_compact read_mode read_id
    read_int read_bytes read_end little_endian id_bytes vec compact width_from uint low_bytes
    spelled same_text call_bytes
call_test = refl

block_test : block_state at_start 99 legacy_rules a_block ≡ ok after_block
unfolding block_state check_block expire_tickets step_fees apply_receipts apply_receipt
    track_multisigs operate end_tickets assert_invariants progressive_holds attempt decode encode
    operation_bytes read_operation read_text read_vector read_compact read_mode read_id read_int
    read_bytes read_end little_endian id_bytes vec compact width_from uint low_bytes spelled
    is_symbol require_context require_rate_fee require_exact_fee batch_receipt legacy_fee
    is_rate_derived call_bytes apply_operation apply_kind deploy_asset asset_id same_text parse_call
    read_call read_batch read_calls declared_payload held locked_in read_settlement parse_settlement
    settlement_call
block_test = refl

abbrev after_receipt : Applied
after_receipt = record {
  state = record deployed { journal = record { height = 10; index = 2; verdict = accepted } ∷ [] };
  rights = none;
}

receipt_test : apply_receipt at_start 99 paying legacy_rules none ≡ ok after_receipt
unfolding apply_receipt track_multisigs operate end_tickets attempt decode encode operation_bytes
    read_operation read_text read_vector read_compact read_mode read_id read_int read_bytes read_end
    little_endian id_bytes vec compact width_from uint low_bytes spelled is_symbol require_context
    require_rate_fee require_exact_fee batch_receipt legacy_fee is_rate_derived call_bytes
    apply_operation apply_kind deploy_asset asset_id same_text parse_call read_call read_batch
    read_calls declared_payload read_settlement parse_settlement settlement_call
receipt_test = refl

apply_receipt-Sound_example : Sound after_receipt.state
apply_receipt-Sound_example =
    apply_receipt-Sound at_start 99 paying legacy_rules none start-Sound receipt_test

abbrev reader : NativeIndexer
reader = record {
  current = at_start;
  history = record { key = 10; value = at_start } ∷ [];
  genesis = 99;
  rules = legacy_rules;
  retain_history = true;
}

abbrev read_on : NativeIndexer
read_on = record reader {
  current = after_block;
  history = record { key = 10; value = at_start } ∷ record { key = 11; value = after_block } ∷ [];
}

apply_block_test : apply_block reader a_block ≡ ok read_on
unfolding apply_block
apply_block_test = rw block_test refl

rollback-apply_block_example :
    (y : NativeIndexer) × (rollback read_on 10 1 ≡ ok y) × (y.current ≡ undone reader a_block)
rollback-apply_block_example =
    rollback-apply_block reader a_block refl refl (omega arith) apply_block_test

apply_block-recorded_example :
    (get read_on.history read_on.current.height ≡ some read_on.current)
    × (read_on.current.height ≡ reader.current.height + 1)
    × (y : NativeIndexer) × (rollback read_on 11 2 ≡ ok y)
    × (y.current ≡ read_on.current)
apply_block-recorded_example = apply_block-recorded reader a_block apply_block_test
