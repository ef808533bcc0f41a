-- ===== src/Ledger/Context.antt =====
-- The call and the receipt that an operation needs: `declaredPayload`, `requireExactFee`,
-- `requireContext`, `failedFeeOperation` and `feeKept` of packages/native/src/protocol.ts.
use qlyphs_wallet.Prelude.{
  ℕ, suc, Option, none, some, Bool, true, false, ◌&&◌, List, [], ◌∷◌, take, any_of, ◌==◌, same_text,
  if◌then◌else◌, Result, ok, err, require_that, ◌>>=◌, ◌>>◌,
}
use qlyphs_wallet.Refusal.{
  Refusal, requires_fee_batch, not_exact_fee_batch, no_fee_receipt, fee_mismatch,
  fee_schedule_not_active, requires_direct_remark, missing_remark, offer_requires_proposal,
}
use qlyphs_wallet.Operations.{
  HexId, qlyphs_fee_account, Operation, deploy, mint, transfer, offer, inscribe, deploy_progressive,
  deploy_progressive_v2, fee_rate, fee_admin,
}
use qlyphs_wallet.Fees.Rate.{is_fee_bearing, legacy_fee, require_allowed}
use qlyphs_wallet.Fees.State.{FeeRules, FeeState, FeeMode, legacy, schedule, fee_mode, allowed_fees}
use qlyphs_wallet.Wire.Calls.{
  Call, remark, propose, pay, batch, Calls, no_calls, more_calls, call_bytes,
}
use qlyphs_wallet.Wire.Parsing.{parse_call}
use qlyphs_wallet.Wire.Decoding.{DecodeOptions, decode}
use qlyphs_wallet.Ledger.Data.{
  Rules, Receipt, NativeEvent, paid_event, remarked_event, batch_completed_event, Verdict, accepted,
  fee_batch_failed, extrinsic_failed,
}
use qlyphs_wallet.Ledger.Activation.{decode_options}

-- `MINT_FEE`
abbrev pub mint_fee : ℕ
mint_fee = 10_000_000_000

abbrev pub fee_batch_call : List ℕ → ℕ → Call
fee_batch_call payload fee =
    batch (more_calls (remark payload true) (more_calls (pay qlyphs_fee_account fee) no_calls))

-- `payload.startsWith(PROTOCOL_HEADER)`
abbrev pub starts_with_header : List ℕ → Bool
starts_with_header payload = same_text (take 5 payload) (0x51 ∷ 0x4c ∷ 0x59 ∷ 0x50 ∷ 1 ∷ [])

abbrev pub headed : List ℕ → Option (List ℕ)
headed payload = if starts_with_header payload then some payload else none

-- The first remark of a batch that starts with the header.
abbrev pub first_headed : Calls → Option (List ℕ)
first_headed no_calls = none
first_headed (more_calls (remark payload event) cs) =
    let later = first_headed cs in if starts_with_header payload then some payload else later
first_headed (more_calls c cs) = first_headed cs

unfoldable pub declared_payload : Call → Option (List ℕ)
declared_payload (remark payload true) = headed payload
declared_payload (propose m (remark payload false) expiry) = headed payload
declared_payload (batch calls) = first_headed calls
declared_payload _ = none

abbrev pub remark_senders : List NativeEvent → List HexId
remark_senders [] = []
remark_senders (remarked_event sender ∷ es) = sender ∷ remark_senders es
remark_senders (e ∷ es) = remark_senders es

pub record Payment : Type 0 where
  pub payer : HexId
  pub to : HexId
  pub amount : ℕ

abbrev pub payments : List NativeEvent → List Payment
payments [] = []
payments (paid_event payer to amount ∷ es) =
    record { payer = payer; to = to; amount = amount } ∷ payments es
payments (e ∷ es) = payments es

abbrev pub completions : List NativeEvent → ℕ
completions [] = 0
completions (batch_completed_event ∷ es) = suc (completions es)
completions (e ∷ es) = completions es

abbrev pub only_sender : List HexId → HexId → Bool
only_sender (x ∷ []) from = x == from
only_sender _ from = false

abbrev pub only_payment : List Payment → HexId → HexId → ℕ → Bool
only_payment (p ∷ []) from to amount = p.payer == from && p.to == to && p.amount == amount
only_payment _ from to amount = false

-- `batchReceipt`
unfoldable pub batch_receipt : Receipt → HexId → HexId → ℕ → Bool
batch_receipt r from to amount =
    only_sender (remark_senders r.events) from
    && only_payment (payments r.events) from to amount
    && completions r.events == 1

-- `r.signer !== null && batchReceipt(…)`
abbrev pub paid_by : Receipt → Option HexId → ℕ → Bool
paid_by r none amount = false
paid_by r (some owner) amount = batch_receipt r owner qlyphs_fee_account amount

abbrev pub is_batch : Call → Bool
is_batch (batch calls) = true
is_batch _ = false

-- The bytes of a call are those of the fee batch.
abbrev pub exact_batch : Call → List ℕ → ℕ → Result Refusal (Unit {0})
exact_batch call payload fee = do
  bs ← call_bytes call
  wanted ← call_bytes (fee_batch_call payload fee)
  require_that (same_text bs wanted) not_exact_fee_batch

unfoldable pub require_exact_fee : Receipt → Call → List ℕ → ℕ → Result Refusal (Unit {0})
require_exact_fee r call payload fee = do
  require_that (is_batch call) requires_fee_batch
  exact_batch call payload fee
  require_that (paid_by r r.signer fee) no_fee_receipt

pub record FeeContext : Type 0 where
  pub genesis : HexId
  pub rules : Rules
  pub height : ℕ
  pub fees : Option FeeState

abbrev pub mode_of : FeeContext → FeeMode
mode_of ctx = elim ctx.rules.fee_schedule [
  | none ↦ legacy
  | some f ↦ fee_mode (some f) ctx.genesis ctx.height
]

-- The amount that the second of exactly two calls pays.
abbrev pub leg_amount : Call → Result Refusal ℕ
leg_amount (batch (more_calls c (more_calls (pay to amount) no_calls))) = ok amount
leg_amount _ = err not_exact_fee_batch

-- `symbolClass(op.symbol) === 'allowed'` of a deploy.
abbrev pub symbol_allowed : Operation → Result Refusal (Unit {0})
symbol_allowed (deploy p) = require_allowed p.symbol
symbol_allowed (deploy_progressive p) = require_allowed p.symbol
symbol_allowed (deploy_progressive_v2 p) = require_allowed p.symbol
symbol_allowed op = ok tt

-- The check against the amounts of the schedule, where it and its state are there.
abbrev pub scheduled_fee :
    Receipt
    → Operation
    → ℕ
    → FeeMode
    → Option FeeRules
    → Option FeeState
    → ℕ
    → Result Refusal (Unit {0})
scheduled_fee r op height schedule (some rules) (some fees) amount = do
  symbol_allowed op
  allowed ← allowed_fees fees rules op height
  require_that (any_of (λ m. m == amount) allowed) fee_mismatch
  require_that (paid_by r r.signer amount) no_fee_receipt
scheduled_fee r op height mode rules fees amount = err fee_schedule_not_active

-- The branch of the rate-derived kinds.
unfoldable pub require_rate_fee :
    Receipt → Operation → Call → List ℕ → FeeContext → FeeMode → Result Refusal (Unit {0})
require_rate_fee r op call payload ctx legacy = do
  fee ← legacy_fee op
  require_exact_fee r call payload fee
require_rate_fee r op call payload ctx mode = do
  require_that (is_batch call) requires_fee_batch
  amount ← leg_amount call
  exact_batch call payload amount
  scheduled_fee r op ctx.height mode ctx.rules.fee_schedule ctx.fees amount

-- `call.kind === 'remark' && call.event`
abbrev pub is_direct_remark : Call → Bool
is_direct_remark (remark payload event) = event
is_direct_remark _ = false

abbrev pub is_signer : Option HexId → HexId → Bool
is_signer none a = false
is_signer (some owner) a = a == owner

abbrev pub only_signer : Option HexId → List HexId → Bool
only_signer none senders = false
only_signer (some owner) senders = only_sender senders owner

abbrev pub is_proposal : Call → Bool
is_proposal (propose m c expiry) = true
is_proposal _ = false

-- A role's remark.
abbrev pub require_governance : Receipt → Call → Result Refusal (Unit {0})
require_governance r call =
    require_that (is_direct_remark call && only_signer r.signer (remark_senders r.events))
      requires_direct_remark

unfoldable pub require_context :
    Receipt → Operation → Call → List ℕ → FeeContext → Result Refusal (Unit {0})
require_context r (mint asset amount) call payload ctx = require_exact_fee r call payload mint_fee
require_context r (deploy p) call payload ctx =
    require_rate_fee r (deploy p) call payload ctx (mode_of ctx)
require_context r (deploy_progressive p) call payload ctx =
    require_rate_fee r (deploy_progressive p) call payload ctx (mode_of ctx)
require_context r (deploy_progressive_v2 p) call payload ctx =
    require_rate_fee r (deploy_progressive_v2 p) call payload ctx (mode_of ctx)
require_context r (inscribe t c) call payload ctx =
    require_rate_fee r (inscribe t c) call payload ctx (mode_of ctx)
require_context r (fee_rate effective rate) call payload ctx = require_governance r call
require_context r (fee_admin p) call payload ctx = require_governance r call
require_context r (transfer asset amount to) call payload ctx =
    require_that (is_direct_remark call) requires_direct_remark
    >> require_that (any_of (λ x. is_signer r.signer x) (remark_senders r.events)) missing_remark
require_context r (offer p) call payload ctx =
    require_that (is_proposal call) offer_requires_proposal

-- The operation that the bytes of a call declare, or the message it is refused with; `none` is a call
-- that declares nothing.
abbrev pub declared_operation : DecodeOptions → Option (List ℕ) → Result Refusal (Option Operation)
declared_operation options none = ok none
declared_operation options (some payload) = decode options payload >>= λ e. ok (some e.op)

abbrev pub failure_of : Call → Option Operation → Option Verdict
failure_of call none = none
failure_of call (some op) =
    if is_fee_bearing op
    then some (if is_batch call then fee_batch_failed else extrinsic_failed)
    else none

-- `failedFeeOperation`: a throw is caught.
unfoldable pub failed_fee_operation : Receipt → DecodeOptions → Option Verdict
unfolding is_fee_bearing
failed_fee_operation r options =
    elim (parse_call 4 r.call_hex >>= λ call.
    declared_operation options (declared_payload call) >>= λ op. ok (failure_of call op)) [
      | err m ↦ none
      | ok verdict ↦ verdict
    ]

abbrev pub is_rejection : Verdict → Bool
is_rejection accepted = false
is_rejection _ = true

abbrev pub bears_fee : Option Operation → Bool
bears_fee none = false
bears_fee (some op) = is_fee_bearing op

abbrev pub declares_fee : Receipt → DecodeOptions → Bool
declares_fee r options =
    elim (parse_call 4 r.call_hex >>= λ call. declared_operation options (declared_payload call)) [
      | err m ↦ false
      | ok op ↦ bears_fee op
    ]

abbrev pub pays_qlyphs : Option HexId → Payment → Bool
pays_qlyphs signer p = is_signer signer p.payer && p.to == qlyphs_fee_account

-- `feeKept`
unfoldable pub fee_kept : Receipt → Option Verdict → Rules → ℕ → Bool
unfolding is_fee_bearing
fee_kept r none rules height = false
fee_kept r (some verdict) rules height =
    is_rejection verdict
    && r.success
    && declares_fee r (decode_options rules height)
    && any_of (pays_qlyphs r.signer) (payments r.events)
