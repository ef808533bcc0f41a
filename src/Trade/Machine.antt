-- ===== src/Trade/Machine.antt =====
-- The trade state machine of packages/shared/src/trade-machine.ts: `next` and `transition`. Texts are
-- lists of character codes; an optional Boolean of the context is false when it is not given, which
-- is how the source reads it.
use qlyphs_wallet.Prelude.{
  ℕ, Option, none, some, Bool, true, false, ◌&&◌, not, List, [], ◌∷◌, ◌++◌, if◌then◌else◌, codes,
}

pub data TradeState : Type 0 where
  awaiting_lock awaiting_payment awaiting_delivery releasing completed : TradeState
  cancelled refunding refunded disputed : TradeState

pub data DisputeResolution : Type 0 where
  release refund : DisputeResolution

pub data DisputeOpener : Type 0 where
  seller buyer admin system : DisputeOpener

pub data TradeEvent : Type 0 where
  lock_verified late_lock_verified : TradeEvent
  lock_failed : (reason : List ℕ) → TradeEvent
  lock_timeout : (nothing_deposited : Bool) → TradeEvent
  payment_confirmed : (tx_hash : List ℕ) (log_index : Option ℕ) → TradeEvent
  pay_timeout : TradeEvent
  release_executed refund_executed : (tx_hashes : List (List ℕ)) → TradeEvent
  dispute_opened : (by : DisputeOpener) → TradeEvent
  dispute_resolved : (resolution : DisputeResolution) → TradeEvent
  escrow_invalidated : (reason : List ℕ) → TradeEvent
  delivery_locked delivery_timeout : TradeEvent

pub data TradeEventType : Type 0 where
  lock_verified_type late_lock_verified_type lock_failed_type lock_timeout_type : TradeEventType
  payment_confirmed_type pay_timeout_type release_executed_type : TradeEventType
  refund_executed_type dispute_opened_type dispute_resolved_type : TradeEventType
  escrow_invalidated_type delivery_locked_type delivery_timeout_type : TradeEventType

-- `event.type`
unfoldable pub type_of : TradeEvent → TradeEventType
type_of lock_verified = lock_verified_type
type_of late_lock_verified = late_lock_verified_type
type_of (lock_failed r) = lock_failed_type
type_of (lock_timeout d) = lock_timeout_type
type_of (payment_confirmed t l) = payment_confirmed_type
type_of pay_timeout = pay_timeout_type
type_of (release_executed ts) = release_executed_type
type_of (refund_executed ts) = refund_executed_type
type_of (dispute_opened b) = dispute_opened_type
type_of (dispute_resolved r) = dispute_resolved_type
type_of (escrow_invalidated r) = escrow_invalidated_type
type_of delivery_locked = delivery_locked_type
type_of delivery_timeout = delivery_timeout_type

pub data TradeKind : Type 0 where
  p2p broker : TradeKind

pub record TradeContext : Type 0 where
  pub kind : TradeKind
  pub escrow_funded : Bool
  pub recoverable_lock : Bool
  pub offer_restored : Bool

pub data SellerWarning : Type 0 where
  lock_timeout_no_deposit lock_insufficient_balance : SellerWarning

pub data DisputeReason : Type 0 where
  payment_during_refund invalidated_escrow late_delivery : DisputeReason

pub data TradeEffect : Type 0 where
  restore_offer_remaining : TradeEffect
  warn_seller : SellerWarning → TradeEffect
  warn_buyer set_pay_deadline set_delivery_deadline : TradeEffect
  record_payment : (tx_hash : List ℕ) (log_index : Option ℕ) → TradeEffect
  start_release start_refund : TradeEffect
  open_system_dispute : (reason : DisputeReason) (detail : List ℕ) → TradeEffect
  increment_completed_trades : TradeEffect

pub data TransitionErrorCode : Type 0 where
  terminal_state illegal_transition : TransitionErrorCode

pub record Accepted : Type 0 where
  pub state : TradeState
  pub effects : List TradeEffect

-- The message of an error, a text for the reader, is left out.
pub data TransitionResult : Type 0 where
  applied :
      (from state : TradeState) (changed : Bool) (effects : List TradeEffect) → TransitionResult
  failed :
      (code : TransitionErrorCode) (from : TradeState) (event : TradeEventType) → TransitionResult

unfoldable pub is_terminal : TradeState → Bool
is_terminal completed = true
is_terminal cancelled = true
is_terminal refunded = true
is_terminal _ = false

unfoldable pub can_open_dispute : TradeState → Bool
can_open_dispute awaiting_payment = true
can_open_dispute awaiting_delivery = true
can_open_dispute releasing = true
can_open_dispute refunding = true
can_open_dispute _ = false

abbrev pub is_broker : TradeKind → Bool
is_broker broker = true
is_broker p2p = false

abbrev accept : TradeState → List TradeEffect → Option Accepted
accept s es = some (record { state = s; effects = es })

abbrev payment_detail : List ℕ → List ℕ
payment_detail tx =
    codes "Payment "
    ++ (tx ++ codes " confirmed after the pay deadline, before the refund executed")

abbrev delivery_detail : List ℕ
delivery_detail =
    codes
      "The buyer paid but the QTC was not delivered in time. Deliver it, or refund the USDC by hand."

-- The switch of `next`, one clause for each event and each state that it accepts; the last clause is
-- the `null` that every case ends in.
unfoldable pub next : TradeState → TradeEvent → TradeContext → Option Accepted
unfolding can_open_dispute
next awaiting_lock lock_verified ctx = accept awaiting_payment (set_pay_deadline ∷ [])
next cancelled late_lock_verified ctx =
    if not (is_broker ctx.kind) && ctx.recoverable_lock && ctx.escrow_funded
    then accept refunding (start_refund ∷ [])
    else none
next awaiting_lock (lock_failed r) ctx =
    accept cancelled (restore_offer_remaining ∷ warn_seller lock_insufficient_balance ∷ [])
next awaiting_lock (lock_timeout nothing_deposited) ctx = accept cancelled (
    restore_offer_remaining
    ∷ (if nothing_deposited then warn_seller lock_timeout_no_deposit ∷ [] else []))
next awaiting_payment (payment_confirmed tx log) ctx =
    if is_broker ctx.kind
    then accept awaiting_delivery (record_payment tx log ∷ set_delivery_deadline ∷ [])
    else accept releasing (record_payment tx log ∷ start_release ∷ [])
next refunding (payment_confirmed tx log) ctx =
    accept disputed
      (record_payment tx log ∷ open_system_dispute payment_during_refund (payment_detail tx) ∷ [])
next disputed (payment_confirmed tx log) ctx = accept disputed (record_payment tx log ∷ [])
next awaiting_payment pay_timeout ctx =
    if is_broker ctx.kind
    then accept cancelled (warn_buyer ∷ restore_offer_remaining ∷ [])
    else accept refunding (warn_buyer ∷ start_refund ∷ [])
next awaiting_delivery delivery_locked ctx =
    if is_broker ctx.kind then accept releasing (start_release ∷ []) else none
next awaiting_delivery delivery_timeout ctx =
    accept disputed (open_system_dispute late_delivery delivery_detail ∷ [])
next releasing (release_executed txs) ctx = accept completed (increment_completed_trades ∷ [])
next refunding (refund_executed txs) ctx =
    accept refunded (if ctx.offer_restored then [] else restore_offer_remaining ∷ [])
next s (dispute_opened by) ctx = if can_open_dispute s then accept disputed [] else none
next disputed (dispute_resolved release) ctx =
    if is_broker ctx.kind && not ctx.escrow_funded
    then accept awaiting_delivery (set_delivery_deadline ∷ [])
    else accept releasing (start_release ∷ [])
next disputed (dispute_resolved refund) ctx =
    if is_broker ctx.kind && not ctx.escrow_funded
    then accept refunded (restore_offer_remaining ∷ [])
    else accept refunding (start_refund ∷ [])
next awaiting_payment (escrow_invalidated r) ctx =
    accept disputed (open_system_dispute invalidated_escrow r ∷ [])
next awaiting_delivery (escrow_invalidated r) ctx =
    accept disputed (open_system_dispute invalidated_escrow r ∷ [])
next releasing (escrow_invalidated r) ctx =
    accept disputed (open_system_dispute invalidated_escrow r ∷ [])
next refunding (escrow_invalidated r) ctx =
    accept disputed (open_system_dispute invalidated_escrow r ∷ [])
next _ _ ctx = none

-- `recovery`
unfoldable pub is_recovery : TradeState → TradeEvent → TradeContext → Bool
is_recovery cancelled late_lock_verified ctx =
    not (is_broker ctx.kind) && ctx.recoverable_lock && ctx.escrow_funded
is_recovery _ _ ctx = false

-- `accepted.state !== state`
unfoldable pub same_state : TradeState → TradeState → Bool
same_state awaiting_lock awaiting_lock = true
same_state awaiting_payment awaiting_payment = true
same_state awaiting_delivery awaiting_delivery = true
same_state releasing releasing = true
same_state completed completed = true
same_state cancelled cancelled = true
same_state refunding refunding = true
same_state refunded refunded = true
same_state disputed disputed = true
same_state _ _ = false

unfoldable pub transition : TradeState → TradeEvent → TradeContext → TransitionResult
transition state event ctx =
    if is_terminal state && not (is_recovery state event ctx)
    then failed terminal_state state (type_of event)
    else (elim (next state event ctx) [
      | none ↦ failed illegal_transition state (type_of event)
      | some a ↦ applied state a.state (not (same_state a.state state)) a.effects
    ])
