-- ===== src/Ledger/Tests.antt =====
-- The ledger of packages/native/src/protocol.ts at concrete inputs: one deploy, one mint.
use qlyphs_wallet.Prelude.{
  ℕ, ◌≤◌, ◌*◌, ◌≡◌, refl, arith, [], ◌∷◌, codes, none, some, ok, err, same_text, true,
}
use qlyphs_wallet.Refusal.{wrong_sequence}
use qlyphs_wallet.Operations.{deploy, Envelope, open_mint}
use qlyphs_wallet.Wire.Bytes.{asset_id, uint, low_bytes, spelled}
use qlyphs_wallet.Wire.Calls.{Call, remark}
use qlyphs_wallet.Ledger.Data.{open_policy, no_right, State, Receipt, Rules, sale_fee}
use qlyphs_wallet.Ledger.Apply.{apply_operation, apply_kind, deploy_asset}
use qlyphs_wallet.Ledger.Supply.{Sound, held, locked_in, minted_of}
use qlyphs_wallet.Ledger.Conservation.{apply_operation-Sound}
use qlyphs_wallet.Ledger.LotsKept.{LotsKept, apply_operation-LotsKept}
use qlyphs_wallet.Ledger.Abstract.{view, Step}
use qlyphs_wallet.Ledger.Refinement.{apply_operation-Step}
use qlyphs_wallet.Ledger.Replay.{replay_refused, sale_fee_least}

abbrev pub at_start : State
at_start = record {
  height = 10;
  hash = 1;
  finalized = 9;
  sequences = [];
  assets = [];
  balances = [];
  multisigs = [];
  tickets = [];
  symbols = [];
  inscriptions = [];
  next_inscription = 1;
  fees = none;
  journal = [];
}

abbrev pub legacy_rules : Rules
legacy_rules = record { progressive = none; progressive_v2 = none; fee_schedule = none }

abbrev receipt : Receipt
receipt = record {
  index = 2;
  hash = 5;
  signer = some 7;
  call_hex = [];
  success = true;
  events = [];
}

abbrev a_remark : Call
a_remark = remark [] true

abbrev pub deploying : Envelope
deploying = record {
  genesis = 99;
  sequence = 0;
  op =
      deploy
        (record { symbol = codes "QQ"; decimals = 0; cap = 100; limit = 60; policy = open_mint });
}

abbrev token : ℕ
token = 7 * 18_446_744_073_709_551_616

abbrev pub deployed : State
deployed = record at_start {
  sequences = record { key = 7; value = 1 } ∷ [];
  symbols = record { key = codes "QQ"; value = token } ∷ [];
  assets =
      record {
        key = token;
        value = record {
          creator = 7;
          definition = record {
            symbol = codes "QQ";
            decimals = 0;
            cap = 100;
            limit = 60;
            policy = open_policy;
          };
          minted = 0;
          right = no_right;
        };
      }
      ∷ [];
}

deploy_test : apply_operation at_start 99 receipt deploying a_remark legacy_rules ≡ ok deployed
unfolding apply_operation apply_kind deploy_asset asset_id uint low_bytes spelled same_text
deploy_test = refl

pub start-Sound : Sound at_start
unfolding held locked_in minted_of
start-Sound = record { conserved = λ id. refl; capped = λ id. omega arith }

apply_operation-Sound_example : Sound deployed
apply_operation-Sound_example =
    apply_operation-Sound at_start 99 receipt deploying a_remark legacy_rules start-Sound
      deploy_test

replay_refused_example :
    apply_operation deployed 99 receipt deploying a_remark legacy_rules ≡ err wrong_sequence
replay_refused_example =
    replay_refused at_start 99 receipt receipt deploying a_remark a_remark legacy_rules legacy_rules
      deploy_test refl

sale_fee_least_example : (101 ≤ 100 * sale_fee 101) × (101 ≤ 100 * 2 → sale_fee 101 ≤ 2)
sale_fee_least_example = sale_fee_least 101 2

apply_operation-LotsKept_example : LotsKept at_start.assets deployed.assets
apply_operation-LotsKept_example =
    apply_operation-LotsKept at_start 99 receipt deploying a_remark legacy_rules deploy_test

apply_operation-Step_example :
    (owner : ℕ) × (receipt.signer ≡ some owner)
    × Step owner deploying.sequence deploying.op (view at_start) (view deployed)
apply_operation-Step_example =
    apply_operation-Step at_start 99 receipt deploying a_remark legacy_rules deploy_test
