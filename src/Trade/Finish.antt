-- ===== src/Trade/Finish.antt =====
-- No trade of packages/shared/src/trade-machine.ts is stuck: from every state it can be ended.
use qlyphs_wallet.Prelude.{
  ◌≤◌, Option, none, some, true, ◌&&◌, not, List, [], ◌∷◌, length, ◌≡◌, refl, arith, Bool-cases,
  inl, inr,
}
use qlyphs_wallet.Trade.Machine.{
  TradeState, awaiting_lock, awaiting_payment, awaiting_delivery, releasing, completed, cancelled,
  refunding, refunded, disputed, TradeEvent, lock_timeout, pay_timeout, delivery_timeout,
  release_executed, refund_executed, dispute_resolved, refund, TradeContext, TransitionResult,
  applied, failed, transition, next, is_terminal, is_recovery, is_broker, same_state,
  can_open_dispute, type_of,
}

abbrev state_after : TransitionResult → Option TradeState
state_after (applied from state changed effects) = some state
state_after (failed code from event) = none

abbrev on_from : Option TradeState → (TradeState → Option TradeState) → Option TradeState
on_from none go = none
on_from (some s) go = go s

-- The state after a sequence of events in one context, where each of them is accepted.
abbrev pub drive : TradeContext → TradeState → List TradeEvent → Option TradeState
drive ctx s [] = some s
drive ctx s (e ∷ es) = on_from (state_after (transition s e ctx)) (λ t. drive ctx t es)

-- An end of a trade within three events.
pub record Finish (ctx : TradeContext) (s : TradeState) : Type 0 where
  pub events : List TradeEvent
  pub end : TradeState
  pub soon : length events ≤ 3
  pub driven : drive ctx s events ≡ some end
  pub final : is_terminal end ≡ true

module _ (ctx : TradeContext) where
  ended : (s : TradeState) → is_terminal s ≡ true → Finish ctx s
  ended s h = record { events = []; end = s; soon = omega arith; driven = refl; final = h }

  refunding-Finish : Finish ctx refunding
  unfolding transition next is_terminal is_recovery type_of same_state can_open_dispute
  refunding-Finish = record {
    events = refund_executed [] ∷ [];
    end = refunded;
    soon = omega arith;
    driven = refl;
    final = refl;
  }

  disputed-Finish : Finish ctx disputed
  unfolding transition next is_terminal is_recovery type_of same_state can_open_dispute
  disputed-Finish = elim (Bool-cases (is_broker ctx.kind && not ctx.escrow_funded)) [
    | inl e ↦ record {
      events = dispute_resolved refund ∷ [];
      end = refunded;
      soon = omega arith;
      driven = rw e refl;
      final = refl;
    }
    | inr e ↦ record {
      events = dispute_resolved refund ∷ refund_executed [] ∷ [];
      end = refunded;
      soon = omega arith;
      driven = rw e refl;
      final = refl;
    }
  ]

  delivery-Finish : Finish ctx awaiting_delivery
  unfolding transition next is_terminal is_recovery type_of same_state can_open_dispute
  delivery-Finish = elim (Bool-cases (is_broker ctx.kind && not ctx.escrow_funded)) [
    | inl e ↦ record {
      events = delivery_timeout ∷ dispute_resolved refund ∷ [];
      end = refunded;
      soon = omega arith;
      driven = rw e refl;
      final = refl;
    }
    | inr e ↦ record {
      events = delivery_timeout ∷ dispute_resolved refund ∷ refund_executed [] ∷ [];
      end = refunded;
      soon = omega arith;
      driven = rw e refl;
      final = refl;
    }
  ]

  payment-Finish : Finish ctx awaiting_payment
  unfolding transition next is_terminal is_recovery type_of same_state can_open_dispute
  payment-Finish = elim (Bool-cases (is_broker ctx.kind)) [
    | inl e ↦ record {
      events = pay_timeout ∷ [];
      end = cancelled;
      soon = omega arith;
      driven = rw e refl;
      final = refl;
    }
    | inr e ↦ record {
      events = pay_timeout ∷ refund_executed [] ∷ [];
      end = refunded;
      soon = omega arith;
      driven = rw e refl;
      final = refl;
    }
  ]

-- From every state, in every context, at most three events that are accepted one after the other end the
-- trade in a terminal state.
pub state-Finish : (ctx : TradeContext) (s : TradeState) → Finish ctx s
unfolding transition next is_terminal is_recovery type_of same_state can_open_dispute
state-Finish ctx awaiting_lock = record {
  events = lock_timeout true ∷ [];
  end = cancelled;
  soon = omega arith;
  driven = refl;
  final = refl;
}
state-Finish ctx awaiting_payment = payment-Finish ctx
state-Finish ctx awaiting_delivery = delivery-Finish ctx
state-Finish ctx releasing = record {
  events = release_executed [] ∷ [];
  end = completed;
  soon = omega arith;
  driven = refl;
  final = refl;
}
state-Finish ctx completed = ended ctx completed refl
state-Finish ctx cancelled = ended ctx cancelled refl
state-Finish ctx refunding = refunding-Finish ctx
state-Finish ctx refunded = ended ctx refunded refl
state-Finish ctx disputed = disputed-Finish ctx
