-- ===== src/Trade/Tests.antt =====
-- Runs of the trade machine of packages/shared/src/trade-machine.ts at concrete inputs.
use qlyphs_wallet.Prelude.{◌≡◌, refl, true, false, ◌||◌, none, some, List, [], ◌∷◌, codes, any_of}
use qlyphs_wallet.Trade.Machine.{
  awaiting_lock, awaiting_payment, awaiting_delivery, releasing, completed, cancelled, refunding,
  refunded, TradeEvent, lock_verified, late_lock_verified, lock_timeout, payment_confirmed,
  release_executed, refund_executed, type_of, TradeEffect, set_pay_deadline, set_delivery_deadline,
  record_payment, start_release, start_refund, restore_offer_remaining, increment_completed_trades,
  TradeContext, p2p, broker, transition, next, is_terminal, is_recovery, same_state,
}
use qlyphs_wallet.Trade.Table.{transition_table, transition-transition_table}
use qlyphs_wallet.Trade.Stepper.{
  EscrowStep, match_step, pay_step, stepper_position, same_step, is_done,
}
use qlyphs_wallet.Trade.Timeline.{stepper_position-advances}
use qlyphs_wallet.Trade.Finish.{Finish, state-Finish}
use qlyphs_wallet.Trade.History.{
  Run, created, accepted, tally, is_completion, is_restoration, completed_counted_once,
  offer_restored_once, delivery_entitled, entitles_buyer,
}

abbrev at_match : TradeContext
at_match = record {
  kind = p2p;
  escrow_funded = true;
  recoverable_lock = true;
  offer_restored = false;
}

abbrev after_cancel : TradeContext
after_cancel = record {
  kind = p2p;
  escrow_funded = true;
  recoverable_lock = true;
  offer_restored = true;
}

transition-transition_table_example :
    any_of (same_state awaiting_payment) (transition_table awaiting_lock (type_of lock_verified))
    ≡ true
unfolding transition next is_terminal is_recovery same_state transition_table type_of
transition-transition_table_example =
    transition-transition_table awaiting_lock lock_verified at_match {t = awaiting_payment}
      {c = true} {es = set_pay_deadline ∷ []} refl

-- Locked, paid, released.
abbrev sold_events : List TradeEvent
sold_events = release_executed [] ∷ payment_confirmed (codes "0x1") none ∷ lock_verified ∷ []

abbrev sold_effects : List TradeEffect
sold_effects =
    increment_completed_trades
    ∷ record_payment (codes "0x1") none
    ∷ start_release
    ∷ set_pay_deadline
    ∷ []

sold : Run p2p sold_events sold_effects completed
unfolding transition next is_terminal is_recovery same_state
sold =
    accepted
      (accepted
        (accepted created lock_verified at_match refl refl {t = awaiting_payment} {c = true} refl)
        (payment_confirmed (codes "0x1") none) at_match refl refl {t = releasing} {c = true} refl)
      (release_executed []) at_match refl refl {t = completed} {c = true} refl

-- Cancelled by the timeout, locked late, refunded: the amount was given back once.
abbrev returned_events : List TradeEvent
returned_events = refund_executed [] ∷ late_lock_verified ∷ lock_timeout false ∷ []

abbrev returned_effects : List TradeEffect
returned_effects = start_refund ∷ restore_offer_remaining ∷ []

returned : Run p2p returned_events returned_effects refunded
unfolding transition next is_terminal is_recovery same_state
returned =
    accepted
      (accepted
        (accepted created (lock_timeout false) at_match refl refl {t = cancelled} {c = true} refl)
        late_lock_verified after_cancel refl refl {t = refunding} {c = true} refl)
      (refund_executed []) after_cancel refl refl {t = refunded} {c = true} refl

completed_counted_once_example : tally is_completion sold_effects ≡ 1
completed_counted_once_example = completed_counted_once sold

offer_restored_once_example : tally is_restoration returned_effects ≡ 1
offer_restored_once_example = offer_restored_once returned

delivery_entitled_example : any_of entitles_buyer sold_events ≡ true
delivery_entitled_example = delivery_entitled sold refl

abbrev at_sale : TradeContext
at_sale = record at_match { kind = broker }

stepper_position-advances_example :
    ((stepper_position awaiting_payment broker).current ≡ some pay_step)
    × (is_done match_step (stepper_position awaiting_payment broker) ≡ true)
    × ((x : EscrowStep)
        → is_done x (stepper_position awaiting_delivery broker)
          ≡ (same_step x pay_step || is_done x (stepper_position awaiting_payment broker)))
unfolding stepper_position transition next is_terminal is_recovery same_state
stepper_position-advances_example =
    stepper_position-advances {k = broker} created (payment_confirmed (codes "0x1") none) at_sale
      {step = pay_step} {t = awaiting_delivery} {c = true}
      {es = record_payment (codes "0x1") none ∷ set_delivery_deadline ∷ []} refl refl refl refl

state-Finish_example : Finish after_cancel awaiting_payment
state-Finish_example = state-Finish after_cancel awaiting_payment
