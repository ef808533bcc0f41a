-- ===== src/Trade/Table.antt =====
-- `TRANSITION_TABLE` of packages/shared/src/trade-machine.ts, the table for tests and docs, against
-- the machine.
use qlyphs_wallet.Prelude.{Bool, true, false, List, [], ◌∷◌, ◌≡◌, arith, any_of}
use qlyphs_wallet.Trade.Machine.{
  TradeState, awaiting_lock, awaiting_payment, awaiting_delivery, releasing, completed, cancelled,
  refunding, refunded, disputed, TradeEvent, TradeEventType, lock_verified_type,
  late_lock_verified_type, lock_failed_type, lock_timeout_type, payment_confirmed_type,
  pay_timeout_type, release_executed_type, refund_executed_type, dispute_opened_type,
  dispute_resolved_type, escrow_invalidated_type, delivery_locked_type, delivery_timeout_type,
  TradeEffect, TradeContext, applied, type_of, next, transition, is_terminal, is_recovery,
  same_state,
}

-- The states that the table lists for a state and an event type; none where it has no entry.
unfoldable pub transition_table : TradeState → TradeEventType → List TradeState
transition_table awaiting_lock lock_verified_type = awaiting_payment ∷ []
transition_table awaiting_lock lock_failed_type = cancelled ∷ []
transition_table awaiting_lock lock_timeout_type = cancelled ∷ []
transition_table awaiting_payment payment_confirmed_type = releasing ∷ awaiting_delivery ∷ []
transition_table awaiting_payment pay_timeout_type = refunding ∷ cancelled ∷ []
transition_table awaiting_payment dispute_opened_type = disputed ∷ []
transition_table awaiting_payment escrow_invalidated_type = disputed ∷ []
transition_table awaiting_delivery delivery_locked_type = releasing ∷ []
transition_table awaiting_delivery delivery_timeout_type = disputed ∷ []
transition_table awaiting_delivery dispute_opened_type = disputed ∷ []
transition_table awaiting_delivery escrow_invalidated_type = disputed ∷ []
transition_table releasing release_executed_type = completed ∷ []
transition_table releasing dispute_opened_type = disputed ∷ []
transition_table releasing escrow_invalidated_type = disputed ∷ []
transition_table refunding refund_executed_type = refunded ∷ []
transition_table refunding payment_confirmed_type = disputed ∷ []
transition_table refunding dispute_opened_type = disputed ∷ []
transition_table refunding escrow_invalidated_type = disputed ∷ []
transition_table disputed payment_confirmed_type = disputed ∷ []
transition_table disputed dispute_resolved_type =
    releasing ∷ refunding ∷ awaiting_delivery ∷ refunded ∷ []
transition_table cancelled late_lock_verified_type = refunding ∷ []
transition_table _ _ = []

unfoldable pub can_apply : TradeState → TradeEventType → Bool
unfolding transition_table
can_apply s e = elim (transition_table s e) [ [] ↦ false | t ∷ ts ↦ true ]

-- An accepted event leads to a state that the table lists for it.
pub transition-transition_table :
    (s : TradeState) (e : TradeEvent) (ctx : TradeContext) {t : TradeState} {c : Bool}
    {es : List TradeEffect}
    → transition s e ctx ≡ applied s t c es
    → any_of (same_state t) (transition_table s (type_of e)) ≡ true
unfolding transition next transition_table type_of is_terminal is_recovery same_state
transition-transition_table awaiting_lock e ctx h = ground arith
transition-transition_table awaiting_payment e ctx h = ground arith
transition-transition_table awaiting_delivery e ctx h = ground arith
transition-transition_table releasing e ctx h = ground arith
transition-transition_table completed e ctx h = ground arith
transition-transition_table cancelled e ctx h = ground arith
transition-transition_table refunding e ctx h = ground arith
transition-transition_table refunded e ctx h = ground arith
transition-transition_table disputed e ctx h = ground arith
