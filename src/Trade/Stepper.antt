-- ===== src/Trade/Stepper.antt =====
-- `stepperPosition` of packages/shared/src/trade-machine.ts: where a trade sits on the public escrow
-- timeline.
use qlyphs_wallet.Prelude.{Bool, true, false, Option, none, some, List, [], ◌∷◌, any_of}
use qlyphs_wallet.Trade.Machine.{
  TradeState, awaiting_lock, awaiting_payment, awaiting_delivery, releasing, completed, cancelled,
  refunding, refunded, disputed, TradeKind, broker,
}

pub data EscrowStep : Type 0 where
  match_step lock_step pay_step release_step : EscrowStep

abbrev pub escrow_steps : List EscrowStep
escrow_steps = match_step ∷ lock_step ∷ pay_step ∷ release_step ∷ []

pub data Outcome : Type 0 where
  in_progress completed_outcome cancelled_outcome refunding_outcome refunded_outcome
        disputed_outcome :
      Outcome

pub record StepperPosition : Type 0 where
  pub current : Option EscrowStep
  pub completed_steps : List EscrowStep
  pub outcome : Outcome

abbrev at_step : Option EscrowStep → List EscrowStep → Outcome → StepperPosition
at_step c cs o = record { current = c; completed_steps = cs; outcome = o }

-- The first four clauses are the switch of a brokered trade, the others the switch of every trade.
unfoldable pub stepper_position : TradeState → TradeKind → StepperPosition
stepper_position awaiting_payment broker = at_step (some pay_step) (match_step ∷ []) in_progress
stepper_position awaiting_delivery broker =
    at_step (some lock_step) (match_step ∷ pay_step ∷ []) in_progress
stepper_position cancelled broker = at_step none (match_step ∷ []) cancelled_outcome
stepper_position disputed broker = at_step none (match_step ∷ pay_step ∷ []) disputed_outcome
stepper_position awaiting_lock _ = at_step (some lock_step) (match_step ∷ []) in_progress
stepper_position awaiting_payment _ =
    at_step (some pay_step) (match_step ∷ lock_step ∷ []) in_progress
stepper_position awaiting_delivery _ =
    at_step (some lock_step) (match_step ∷ pay_step ∷ []) in_progress
stepper_position releasing _ =
    at_step (some release_step) (match_step ∷ lock_step ∷ pay_step ∷ []) in_progress
stepper_position completed _ = at_step none escrow_steps completed_outcome
stepper_position cancelled _ = at_step none (match_step ∷ []) cancelled_outcome
stepper_position refunding _ = at_step none (match_step ∷ lock_step ∷ []) refunding_outcome
stepper_position refunded _ = at_step none (match_step ∷ lock_step ∷ []) refunded_outcome
stepper_position disputed _ = at_step none (match_step ∷ lock_step ∷ []) disputed_outcome

unfoldable pub same_step : EscrowStep → EscrowStep → Bool
same_step match_step match_step = true
same_step lock_step lock_step = true
same_step pay_step pay_step = true
same_step release_step release_step = true
same_step _ _ = false

-- Whether a step is among the completed ones of a position.
abbrev pub is_done : EscrowStep → StepperPosition → Bool
is_done x p = any_of (same_step x) p.completed_steps
