-- ===== src/Wallet/Tests.antt =====
-- A call that a wallet builds, at a concrete input: the deploy of the ledger's tests.
use qlyphs_wallet.Prelude.{◌≡◌, refl, arith, none, some, ok, same_text}
use qlyphs_wallet.Fees.Rate.{
  is_rate_derived, is_symbol, is_blocked, symbol_class, require_allowed, legacy_fee,
}
use qlyphs_wallet.Wire.Bytes.{uint, low_bytes, compact, width_from, vec, id_bytes}
use qlyphs_wallet.Wire.Calls.{call_bytes}
use qlyphs_wallet.Wire.Payload.{encode, operation_bytes}
use qlyphs_wallet.Ledger.Activation.{decode_options}
use qlyphs_wallet.Ledger.Tests.{deploying, legacy_rules}
use qlyphs_wallet.Ledger.BlockTests.{deploy_bytes}
use qlyphs_wallet.Wallet.Commands.{
  user_operation, by_legacy, require_signable, operation_call, command_call, build_call,
}
use qlyphs_wallet.Wallet.Built.{ReadAs, build_call-ReadAs}

build_call_test :
    build_call 99 7 0 (user_operation deploying.op) none none (some by_legacy) ≡ ok deploy_bytes
unfolding build_call command_call operation_call require_signable is_rate_derived is_symbol
    is_blocked symbol_class require_allowed legacy_fee call_bytes encode operation_bytes vec compact
    width_from uint low_bytes id_bytes same_text
build_call_test = refl

build_call-ReadAs_example : ReadAs (decode_options legacy_rules 10) deploying deploy_bytes
build_call-ReadAs_example =
    build_call-ReadAs (decode_options legacy_rules 10) 99 7 0 deploying.op none none
      (some by_legacy) (omega arith) (omega arith) build_call_test
