-- ===== src/Payer/Tests.antt =====
-- The balance checks of packages/native/src/balance.ts at concrete inputs.
use qlyphs_wallet.Prelude.{◌+◌, ◌≤◌, refl, arith, none, some}
use qlyphs_wallet.Payer.Balance.{
  PayerBalance, PayerCosts, check_send_balance, payer_spendable, settled_funds, send_funds_error,
  total_fees,
}
use qlyphs_wallet.Payer.Laws.{check_send_balance_kept, KeptIn}

abbrev an_account : PayerBalance
an_account = record {
  free = 1000;
  frozen = 100;
  finalized = some (record { free = 800; frozen = 50 });
}

abbrev some_costs : PayerCosts
some_costs = record {
  network_fee = 5;
  native_fee = 1;
  deposit = 0;
  platform_fee = some 10;
  tip = none;
  existential_deposit = 20;
}

check_send_balance_kept_example :
    (600 + total_fees some_costs + 100 ≤ 1000)
    × (600 + total_fees some_costs + 20 ≤ 1000)
    × KeptIn an_account (600 + total_fees some_costs) 20 (some (record { free = 800; frozen = 50 }))
unfolding check_send_balance payer_spendable settled_funds
check_send_balance_kept_example =
    check_send_balance_kept an_account some_costs 600 send_funds_error (omega arith) refl
