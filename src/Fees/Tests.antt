-- ===== src/Fees/Tests.antt =====
-- The fee schedule at the mainnet rules of packages/native/src/protocol.ts.
use qlyphs_wallet.Prelude.{
  ℕ, ◌*◌, ◌/◌, ◌≤◌, max, ◌≡◌, refl, none, some, true, [], List, ok, arith, inl,
}
use qlyphs_wallet.Operations.{inscribe, freeze}
use qlyphs_wallet.Fees.Rate.{
  ed, check_rate, rate_error, digits, fee, fee_at, cents_for, require_rate, is_rate_derived,
}
use qlyphs_wallet.Fees.Exact.{fee_at_exact, fee_price}
use qlyphs_wallet.Fees.State.{
  FeeRules, FeeState, check_fee_rules, distinct_roles, check_resets, genesis_fee_state, step_state,
  step_fees, apply_fee_rate, apply_fee_admin, allowed_fees, resets_from, install_guardian,
  install_operator, install_grid, drop_previous, grid_ok,
}
use qlyphs_wallet.Fees.Check.{check_fee_state, grids_ok, ids_ok, roles_ok}
use qlyphs_wallet.Fees.Governance.{
  Enacted, apply_fee_admin-Enacted, apply_fee_admin-check_fee_state, apply_fee_rate-check_fee_state,
}
use qlyphs_wallet.Fees.Start.{RulesOk, step_fees-check_fee_state}
use qlyphs_wallet.Fees.Run.{Run, here, block_started}
use qlyphs_wallet.Fees.Notice.{rate_notice, rate_step}
use qlyphs_wallet.Fees.Allowed.{Contains, fee_stays_accepted}

-- MAINNET_FEE_SCHEDULE
abbrev mainnet_fees : FeeRules
mainnet_fees = record {
  from = 218_350;
  operator = 0x1581d983b4e5ea7cdc09e367934cb3ee26668a9812e93c0fb11c233108dae379;
  guardian = 0x58cefd2c30b74c033a3cbb09dbb956aecc55c236df5d5a8d0fdb7be0ec7f41f8;
  sentinel = 0xadadf0774413e40aa14f9b8474cfbb84e59c369cb5aaeb49cc328422b7560feb;
  rate = 12_200_000_000;
  delay = 7200;
  grace = 4608;
  guardian_delay = 50400;
  legacy_before = true;
  resets = [];
}

rate_canonical : check_rate 12_200_000_000 ≡ true
unfolding check_rate rate_error digits
rate_canonical = refl

mainnet_fees-RulesOk : RulesOk mainnet_fees
unfolding check_fee_rules check_rate rate_error digits distinct_roles check_resets
mainnet_fees-RulesOk = record {
  checked = refl;
  resets = tt;
  operator = refl;
  guardian = refl;
  sentinel = refl;
}

abbrev first : FeeState
first = genesis_fee_state mainnet_fees

abbrev started : FeeState
started = step_state mainnet_fees 218_350 first

first_check : check_fee_state first 218_350 (some 4608) ≡ true
unfolding check_fee_state genesis_fee_state grids_ok ids_ok roles_ok grid_ok check_rate rate_error
    digits
first_check = refl

fee_price_example :
    let f : ℕ = 305_000_000_000 in
    (is_rate_derived (inscribe [] []) ≡ true)
    × (check_rate 12_200_000_000 ≡ true)
    × (f ≡ 25 * 12_200_000_000)
    × (5_000_000_000 ≤ f)
    × (f ≤ 5_000_000_000_000)
fee_price_example =
    fee_price (inscribe [] []) 12_200_000_000
      (unfold fee cents_for fee_at require_rate rate_error digits in refl)

fee_at_exact_example :
    (fee_at 2_500 12_200_000_000 ≡ ok (max ed (2_500 * (12_200_000_000 / 100))))
    × (100 * (2_500 * (12_200_000_000 / 100)) ≡ 2_500 * 12_200_000_000)
fee_at_exact_example = fee_at_exact 2_500 12_200_000_000 rate_canonical

step_fees-check_fee_state_example :
    (f : FeeState) × (step_fees none (some mainnet_fees) 218_350 ≡ ok (some f))
    × (check_fee_state f 218_350 (some 4608) ≡ true)
step_fees-check_fee_state_example =
    step_fees-check_fee_state none mainnet_fees 218_349 mainnet_fees-RulesOk (inl refl)

-- The operator posts the next rate at the first block.
abbrev posted : FeeState
posted = record started {
  pending =
      some (record {
        id = 1;
        rate = 14_000_000_000;
        effective = 225_600;
        height = 218_350;
        index = 3;
      });
  next_grid = 2;
}

started_check : check_fee_state started 218_350 (some 4608) ≡ true
unfolding check_fee_state step_state genesis_fee_state resets_from install_guardian install_operator
    install_grid drop_previous grids_ok ids_ok roles_ok grid_ok check_rate rate_error digits
started_check = refl

post_accepted :
    apply_fee_rate started mainnet_fees mainnet_fees.operator 225_600 14_000_000_000 218_350 3
    ≡ ok posted
unfolding apply_fee_rate step_state genesis_fee_state resets_from install_guardian install_operator
    install_grid drop_previous require_rate rate_error digits
post_accepted = refl

apply_fee_rate-check_fee_state_example : check_fee_state posted 218_350 (some 4608) ≡ true
apply_fee_rate-check_fee_state_example =
    apply_fee_rate-check_fee_state started mainnet_fees mainnet_fees.operator 225_600 14_000_000_000
      218_350 3 started_check (omega arith) refl refl refl post_accepted

abbrev frozen : FeeState
frozen = record first { operator = none; pending_operator = none; pending = none }

freeze_accepted :
    apply_fee_admin first mainnet_fees mainnet_fees.sentinel freeze 218_350 ≡ ok frozen
unfolding apply_fee_admin genesis_fee_state
freeze_accepted = refl

apply_fee_admin-Enacted_example :
    Enacted first mainnet_fees mainnet_fees.sentinel freeze 218_350 frozen
apply_fee_admin-Enacted_example =
    apply_fee_admin-Enacted first mainnet_fees mainnet_fees.sentinel freeze 218_350 freeze_accepted

apply_fee_admin-check_fee_state_example : check_fee_state frozen 218_350 (some 4608) ≡ true
apply_fee_admin-check_fee_state_example =
    apply_fee_admin-check_fee_state first mainnet_fees mainnet_fees.sentinel freeze 218_350
      first_check tt freeze_accepted

abbrev next_block : Run mainnet_fees first 218_350 (step_state mainnet_fees 218_351 first) 218_351
next_block = block_started here

rate_notice_example : (step_state mainnet_fees 218_351 first).current ≡ first.current
unfolding genesis_fee_state
rate_notice_example =
    rate_notice mainnet_fees first (step_state mainnet_fees 218_351 first) 218_350 218_351 225_000
      (omega arith) (omega arith) tt next_block

rate_step_example :
    let now = (step_state mainnet_fees 218_351 first).current.rate in
    (4 * now ≤ 5 * first.current.rate) × (4 * first.current.rate ≤ 5 * now)
unfolding genesis_fee_state
rate_step_example =
    rate_step mainnet_fees first first 218_350 218_350 (omega arith) (omega arith, tt) here

fee_stays_accepted_example :
    (l : List ℕ) × (allowed_fees first mainnet_fees (inscribe [] []) 218_350 ≡ ok l)
    × Contains 305_000_000_000 l
unfolding genesis_fee_state
fee_stays_accepted_example =
    fee_stays_accepted mainnet_fees first first 218_350 218_350 (inscribe [] []) (omega arith)
      (omega arith, tt) (omega arith) here first_check
      (unfold genesis_fee_state fee cents_for fee_at require_rate rate_error digits in refl)
