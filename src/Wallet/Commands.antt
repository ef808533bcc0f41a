-- ===== src/Wallet/Commands.antt =====
-- The calls that packages/native/src/commands.ts builds for a wallet to sign: `qlyphsFee`, `feeBasis`,
-- `withSaleFee`, `buildCall`, `feeGovernanceCall` and `governancePreflight`.
use qlyphs_wallet.Prelude.{
  ℕ, ◌+◌, Option, none, some, Bool, true, false, ◌&&◌, ◌||◌, not, List, ◌∷◌, ◌++◌, ltb, ◌==◌,
  if◌then◌else◌, Result, ok, err, require_that, ◌>>=◌, ◌>>◌,
}
use qlyphs_wallet.Prelude.Maps.{Pair, same_pair, number_key, get}
use qlyphs_wallet.Refusal.{
  Refusal, mainnet_fees_off, fee_schedule_required, fee_schedule_not_active, fee_state_missing,
  zero_account, governance_is_no_command, not_the_next_lot, another_profile,
  fee_account_cannot_mint, invalid_qtc_transfer, invalid_counterparty, wrong_buyer_or_ticket,
  only_seller_closes, use_sell, not_a_governance_operation,
}
use qlyphs_wallet.Operations.{
  HexId, zero_id, mainnet, qlyphs_fee_account, Offer, Operation, deploy, mint, transfer, offer,
  inscribe, deploy_progressive, deploy_progressive_v2, fee_rate, fee_admin,
}
use qlyphs_wallet.Fees.Rate.{fee, legacy_fee, is_rate_derived, require_allowed}
use qlyphs_wallet.Fees.State.{
  FeeRules, FeeState, FeeMode, legacy, fee_mode, step_fees, apply_fee_rate, apply_fee_admin,
}
use qlyphs_wallet.Progressive.Quote.{
  ProgressiveProfile, v1, v2, progressive_mint_quote, progressive_lot_fee,
}
use qlyphs_wallet.Wire.Bytes.{uint, compact, id_bytes}
use qlyphs_wallet.Wire.Calls.{remark, propose, pay, call_bytes}
use qlyphs_wallet.Wire.Payload.{encode}
use qlyphs_wallet.Ledger.Data.{State, Rules, Ticket, sale_fee, or_zero}
use qlyphs_wallet.Ledger.Activation.{fee_schedule_active}
use qlyphs_wallet.Ledger.Context.{fee_batch_call, mint_fee}
use qlyphs_wallet.Ledger.Rights.{ProgressiveLot}
use qlyphs_wallet.Ledger.Purchase.{buy_call}

pub data Command : Type 0 where
  user_operation : Operation → Command
  mint_progressive : (asset : HexId) (lot : ℕ) (profile : Option ProgressiveProfile) → Command
  send_qtc : (to : HexId) (amount : ℕ) → Command
  pair : (buyer : HexId) (nonce : ℕ) → Command
  sell : (multisig : HexId) → Offer → Command
  buy cancel_ticket : (ticket : Pair) → Command

pub data FeeBasis : Type 0 where
  by_rate : ℕ → FeeBasis
  by_legacy : FeeBasis

-- `MAINNET_PROGRESSIVE_V2_FROM` and the `from` of `MAINNET_FEE_SCHEDULE`.
abbrev pub mainnet_progressive_v2_from : Option ℕ
mainnet_progressive_v2_from = some 218_350

abbrev pub mainnet_schedule_from : Option ℕ
mainnet_schedule_from = some 218_350

abbrev pub same_pins : Option ℕ → Option ℕ → Bool
same_pins (some from) (some fees) = fees == from
same_pins _ _ = false

abbrev pub mainnet_reviewed : Bool
mainnet_reviewed = same_pins mainnet_progressive_v2_from mainnet_schedule_from

abbrev pub lot_profile : Option ProgressiveProfile → ProgressiveProfile
lot_profile none = v1
lot_profile (some p) = p

abbrev pub same_profile : ProgressiveProfile → ProgressiveProfile → Bool
same_profile v1 v1 = true
same_profile v2 v2 = true
same_profile _ _ = false

-- The fee of a rate-derived operation, which needs a basis.
abbrev pub fee_on : Operation → Option FeeBasis → Result Refusal ℕ
fee_on op none = err fee_schedule_required
fee_on op (some (by_rate rate)) = fee op rate
fee_on op (some by_legacy) = legacy_fee op

abbrev pub operation_fee : Operation → Option FeeBasis → Result Refusal ℕ
operation_fee (mint asset amount) basis = ok mint_fee
operation_fee op basis = if is_rate_derived op then fee_on op basis else ok 0

-- `ticket?.offer.fee ?? 0n`
abbrev pub ticket_fee : Option Ticket → ℕ
ticket_fee none = 0
ticket_fee (some t) = t.offer.fee

unfoldable pub qlyphs_fee : Command → Option Ticket → Option FeeBasis → Result Refusal ℕ
qlyphs_fee (user_operation op) ticket basis = operation_fee op basis
qlyphs_fee (mint_progressive asset lot profile) ticket basis =
    progressive_lot_fee lot (lot_profile profile)
qlyphs_fee (buy key) ticket basis = ok (ticket_fee ticket)
qlyphs_fee _ ticket basis = ok 0

abbrev pub legacy_basis : FeeMode → Result Refusal FeeBasis
legacy_basis legacy = ok by_legacy
legacy_basis mode = err fee_schedule_not_active

abbrev pub basis_of :
    State → Rules → HexId → Option FeeState → Option FeeRules → Result Refusal FeeBasis
basis_of s rules genesis (some f) fee_rules = ok (by_rate f.current.rate)
basis_of s rules genesis none none = ok by_legacy
basis_of s rules genesis none (some f) = legacy_basis (fee_mode (some f) genesis s.height)

unfoldable pub fee_basis : State → Rules → HexId → Result Refusal FeeBasis
fee_basis s rules genesis = do
  require_that (not (genesis == mainnet) || mainnet_reviewed) mainnet_fees_off
  basis_of s rules genesis s.fees rules.fee_schedule

-- The symbol of a deploy is not blocked; an inscription has none.
abbrev pub symbol_signable : Operation → Result Refusal (Unit {0})
symbol_signable (deploy p) = require_allowed p.symbol
symbol_signable (deploy_progressive p) = require_allowed p.symbol
symbol_signable (deploy_progressive_v2 p) = require_allowed p.symbol
symbol_signable op = ok tt

abbrev pub operation_signable : HexId → Operation → Result Refusal (Unit {0})
operation_signable genesis op =
    if is_rate_derived op
    then (symbol_signable op
        >> require_that (not (genesis == mainnet) || mainnet_reviewed) mainnet_fees_off)
    else ok tt

-- `requireSignable`
unfoldable pub require_signable : HexId → Command → Result Refusal (Unit {0})
require_signable genesis (user_operation op) = operation_signable genesis op
require_signable genesis _ = ok tt

unfoldable pub with_sale_fee : Offer → Offer
with_sale_fee p = record p { fee = sale_fee p.price; fee_to = qlyphs_fee_account }

-- The call of an operation in its fee batch.
abbrev pub fee_call : HexId → ℕ → Operation → Option FeeBasis → Result Refusal (List ℕ)
fee_call genesis sequence op basis = do
  payload ← encode (record { genesis = genesis; sequence = sequence; op = op })
  paid ← operation_fee op basis
  call_bytes (fee_batch_call payload paid)

-- The call of a direct remark.
unfoldable pub remark_call : HexId → ℕ → Operation → Result Refusal (List ℕ)
remark_call genesis sequence op = do
  payload ← encode (record { genesis = genesis; sequence = sequence; op = op })
  call_bytes (remark payload true)

unfoldable pub operation_call : HexId → ℕ → Operation → Option FeeBasis → Result Refusal (List ℕ)
operation_call genesis sequence (deploy_progressive p) basis =
    progressive_mint_quote p.cap 0 v1 >>= λ quote.
    fee_call genesis sequence (deploy_progressive p) basis
operation_call genesis sequence (deploy_progressive_v2 p) basis =
    progressive_mint_quote p.cap 0 v2 >>= λ quote.
    fee_call genesis sequence (deploy_progressive_v2 p) basis
operation_call genesis sequence (offer p) basis = err use_sell
operation_call genesis sequence (inscribe t c) basis =
    fee_call genesis sequence (inscribe t c) basis
operation_call genesis sequence (deploy p) basis = fee_call genesis sequence (deploy p) basis
operation_call genesis sequence (mint asset n) basis =
    fee_call genesis sequence (mint asset n) basis
operation_call genesis sequence (transfer asset n to) basis =
    remark_call genesis sequence (transfer asset n to)
operation_call genesis sequence (fee_rate e v) basis = err governance_is_no_command
operation_call genesis sequence (fee_admin p) basis = err governance_is_no_command

abbrev pub lot_call :
    HexId → HexId → ℕ → ProgressiveProfile → Option ProgressiveLot → Result Refusal (List ℕ)
lot_call owner asset number profile none = err not_the_next_lot
lot_call owner asset number profile (some lot) = do
  require_that (lot.asset == asset && lot.lot == number) not_the_next_lot
  require_that (same_profile lot.profile profile) another_profile
  require_that (not (owner == qlyphs_fee_account)) fee_account_cannot_mint
  ok lot.call

-- `[owner, buyer].sort()`
abbrev pub pair_call : HexId → HexId → ℕ → Result Refusal (List ℕ)
pair_call owner buyer nonce = do
  require_that (not (buyer == owner) && not (buyer == zero_id)) invalid_counterparty
  count ← compact 2
  first ← id_bytes (if ltb buyer owner then buyer else owner) 32
  second ← id_bytes (if ltb buyer owner then owner else buyer) 32
  threshold ← uint 2 4
  number ← uint nonce 8
  ok (19 ∷ (0 ∷ (count ++ (first ++ (second ++ (threshold ++ number))))))

abbrev pub buyer_call : HexId → Pair → Option Ticket → Result Refusal (List ℕ)
buyer_call owner key none = err wrong_buyer_or_ticket
buyer_call owner key (some t) = do
  require_that (same_pair t.key key && t.offer.buyer == owner) wrong_buyer_or_ticket
  call ← buy_call t
  call_bytes call

abbrev pub cancel_call : HexId → Pair → Option Ticket → Result Refusal (List ℕ)
cancel_call owner key none = err only_seller_closes
cancel_call owner key (some t) = do
  require_that (same_pair t.key key && t.seller == owner) only_seller_closes
  account ← id_bytes t.multisig 32
  number ← uint t.proposal 4
  ok (19 ∷ (3 ∷ (account ++ number)))

unfoldable pub sell_call : HexId → ℕ → HexId → Offer → Result Refusal (List ℕ)
sell_call genesis sequence multisig p = do
  payload ← encode (record { genesis = genesis; sequence = sequence; op = offer p })
  call_bytes (propose multisig (remark payload false) p.expiry)

-- The switch of `buildCall`.
unfoldable pub command_call :
    HexId
    → HexId
    → ℕ
    → Command
    → Option Ticket
    → Option ProgressiveLot
    → Option FeeBasis
    → Result Refusal (List ℕ)
command_call genesis owner sequence (user_operation op) ticket lot basis =
    operation_call genesis sequence op basis
command_call genesis owner sequence (mint_progressive asset number profile) ticket lot basis =
    lot_call owner asset number (lot_profile profile) lot
command_call genesis owner sequence (send_qtc to amount) ticket lot basis =
    require_that (ltb 0 amount && not (to == zero_id)) invalid_qtc_transfer
    >> call_bytes (pay to amount)
command_call genesis owner sequence (pair buyer nonce) ticket lot basis =
    pair_call owner buyer nonce
command_call genesis owner sequence (sell multisig p) ticket lot basis =
    sell_call genesis sequence multisig p
command_call genesis owner sequence (buy key) ticket lot basis = buyer_call owner key ticket
command_call genesis owner sequence (cancel_ticket key) ticket lot basis =
    cancel_call owner key ticket

-- `kind !== 'feeRate' && kind !== 'feeAdmin'`
abbrev pub is_wallet_command : Command → Bool
is_wallet_command (user_operation (fee_rate e v)) = false
is_wallet_command (user_operation (fee_admin p)) = false
is_wallet_command _ = true

unfoldable pub build_call :
    HexId
    → HexId
    → ℕ
    → Command
    → Option Ticket
    → Option ProgressiveLot
    → Option FeeBasis
    → Result Refusal (List ℕ)
build_call genesis owner sequence command ticket lot basis = do
  account ← id_bytes owner 32
  require_that (not (owner == zero_id)) zero_account
  require_that (is_wallet_command command) governance_is_no_command
  require_signable genesis command
  command_call genesis owner sequence command ticket lot basis

abbrev pub is_governance : Operation → Bool
is_governance (fee_rate e v) = true
is_governance (fee_admin p) = true
is_governance _ = false

unfoldable pub fee_governance_call : HexId → HexId → ℕ → Operation → Result Refusal (List ℕ)
fee_governance_call genesis owner sequence op = do
  account ← id_bytes owner 32
  require_that (not (owner == zero_id)) zero_account
  require_that (is_governance op) not_a_governance_operation
  remark_call genesis sequence op

-- The fee schedule's own check of an operation in the block after the state.
abbrev pub govern_check : FeeState → FeeRules → HexId → Operation → ℕ → Result Refusal FeeState
govern_check f rules owner (fee_rate effective rate) h =
    apply_fee_rate f rules owner effective rate h 0
govern_check f rules owner (fee_admin p) h = apply_fee_admin f rules owner p h
govern_check f rules owner op h = err not_a_governance_operation

abbrev pub stepped_state : Option FeeState → Result Refusal FeeState
stepped_state none = err fee_state_missing
stepped_state (some f) = ok f

abbrev pub preflight_under :
    State → HexId → HexId → Operation → Rules → Option FeeRules → Result Refusal (List ℕ)
preflight_under s genesis owner op rules none = err fee_schedule_not_active
preflight_under s genesis owner op rules (some f) = do
  require_that (fee_schedule_active rules (s.height + 1)) fee_schedule_not_active
  fees ← step_fees s.fees (some f) (s.height + 1)
  now ← stepped_state fees
  next ← govern_check now f owner op (s.height + 1)
  fee_governance_call genesis owner (or_zero (get s.sequences owner)) op

-- `governancePreflight`
unfoldable pub governance_preflight :
    State → HexId → HexId → Operation → Rules → Result Refusal (List ℕ)
governance_preflight s genesis owner op rules =
    preflight_under s genesis owner op rules rules.fee_schedule
