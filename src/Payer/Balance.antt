-- ===== src/Payer/Balance.antt =====
-- The payer's balance checks of packages/native/src/balance.ts. A decimal string is the number that it
-- spells; an optional field is an Option.
use qlyphs_wallet.Prelude.{
  ℕ, ◌+◌, ◌-◌, Option, none, some, ltb, leb, if◌then◌else◌, Result, ok, err, ◌>>=◌,
}

pub data FundsError : Type 0 where
  send_locked_error send_funds_error fee_funds_error buy_funds_error qlyphs_fee_error : FundsError

pub record Funds : Type 0 where
  pub free : ℕ
  pub frozen : ℕ

pub record PayerBalance : Type 0 where
  pub free : ℕ
  pub frozen : ℕ
  pub finalized : Option Funds

pub record PayerCosts : Type 0 where
  pub network_fee : ℕ
  pub native_fee : ℕ
  pub deposit : ℕ
  pub platform_fee : Option ℕ
  pub tip : Option ℕ
  pub existential_deposit : ℕ

abbrev pub settled_with : PayerBalance → Option Funds → Funds
settled_with balance none = record { free = balance.free; frozen = balance.frozen }
settled_with balance (some final) = record {
  free = if ltb final.free balance.free then final.free else balance.free;
  frozen = if ltb balance.frozen final.frozen then final.frozen else balance.frozen;
}

-- `settled`
unfoldable pub settled_funds : PayerBalance → Funds
settled_funds balance = settled_with balance balance.finalized

-- `spendableBalance` of settled funds.
abbrev pub spendable_of : Funds → ℕ → ℕ
spendable_of funds minimum =
    let retained = if ltb minimum funds.frozen then funds.frozen else minimum in
    if ltb retained funds.free then funds.free - retained else 0

unfoldable pub payer_spendable : PayerBalance → ℕ → ℕ
unfolding settled_funds
payer_spendable balance minimum = spendable_of (settled_funds balance) minimum

abbrev pub incoming_of : ℕ → Option Funds → ℕ
incoming_of free none = 0
incoming_of free (some final) = free - final.free

-- `incomingBalance`
unfoldable pub incoming_balance : PayerBalance → ℕ
incoming_balance balance = incoming_of balance.free balance.finalized

abbrev pub amount_or_zero : Option ℕ → ℕ
amount_or_zero none = 0
amount_or_zero (some n) = n

abbrev pub total_fees : PayerCosts → ℕ
total_fees costs =
    costs.network_fee
    + costs.native_fee
    + costs.deposit
    + amount_or_zero costs.platform_fee
    + amount_or_zero costs.tip

-- The same account without its final block.
abbrev pub unconfirmed : PayerBalance → PayerBalance
unconfirmed balance = record balance { finalized = none }

unfoldable pub check_send_balance :
    PayerBalance → PayerCosts → ℕ → FundsError → Result FundsError (Unit {0})
unfolding payer_spendable
check_send_balance balance costs amount funds_error =
    let needed = amount + total_fees costs in
    if leb needed (payer_spendable balance costs.existential_deposit)
    then ok tt
    else if leb needed (payer_spendable (unconfirmed balance) costs.existential_deposit)
    then err send_locked_error
    else err funds_error

-- The kinds of command, with what the outlay reads of them.
pub data Command : Type 0 where
  send_qtc : (amount : ℕ) → Command
  buy transfer deploy mint deploy_progressive deploy_progressive_v2 mint_progressive other : Command

-- `nativeOutlay`, given the price of the ticket that a purchase comes with; `none` within `ok` is an
-- operation that needs no check.
unfoldable pub native_outlay : Command → Option ℕ → Result FundsError (Option ℕ)
native_outlay (send_qtc amount) ticket = ok (some amount)
native_outlay buy none = err qlyphs_fee_error
native_outlay buy (some price) = ok (some price)
native_outlay other ticket = ok none
native_outlay _ ticket = ok (some 0)

abbrev pub error_of : Command → FundsError
error_of buy = buy_funds_error
error_of deploy = fee_funds_error
error_of mint = fee_funds_error
error_of deploy_progressive = fee_funds_error
error_of deploy_progressive_v2 = fee_funds_error
error_of mint_progressive = fee_funds_error
error_of _ = send_funds_error

abbrev pub check_outlay :
    PayerBalance → PayerCosts → Command → Option ℕ → Result FundsError (Unit {0})
check_outlay balance costs command none = ok tt
check_outlay balance costs command (some outlay) =
    check_send_balance balance costs outlay (error_of command)

unfoldable pub check_payer_balance :
    PayerBalance → PayerCosts → Command → Option ℕ → Result FundsError (Unit {0})
unfolding check_send_balance native_outlay
check_payer_balance balance costs command ticket =
    native_outlay command ticket >>= λ outlay. check_outlay balance costs command outlay
