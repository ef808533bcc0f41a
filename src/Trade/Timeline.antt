-- ===== src/Trade/Timeline.antt =====
-- The timeline of packages/shared/src/trade-machine.ts follows its machine.
use qlyphs_wallet.Prelude.{Bool, true, false, ◌||◌, Option, none, some, List, ◌≡◌, refl, arith}
use qlyphs_wallet.Trade.Machine.{
  TradeState, awaiting_lock, awaiting_payment, awaiting_delivery, releasing, completed, cancelled,
  refunding, refunded, disputed, TradeKind, p2p, broker, TradeEvent, lock_verified, delivery_locked,
  payment_confirmed, release_executed, TradeEffect, TradeContext, transition, applied, next,
  is_terminal, is_recovery, can_open_dispute,
}
use qlyphs_wallet.Trade.Stepper.{
  EscrowStep, match_step, lock_step, pay_step, release_step, in_progress, stepper_position,
  same_step, is_done,
}
use qlyphs_wallet.Trade.History.{Run, created, accepted}

-- The step of the timeline that an event carries out.
abbrev pub step_of : TradeEvent → Option EscrowStep
step_of lock_verified = some lock_step
step_of delivery_locked = some lock_step
step_of (payment_confirmed tx log) = some pay_step
step_of (release_executed txs) = some release_step
step_of _ = none

-- A brokered trade does not wait for a lock before the payment.
abbrev may_stand : TradeKind → TradeState → Bool
may_stand broker awaiting_lock = false
may_stand _ _ = true

may_stand_after :
    (k : TradeKind) (s : TradeState) (e : TradeEvent) (ctx : TradeContext) {t : TradeState}
    {c : Bool} {es : List TradeEffect}
    → transition s e ctx ≡ applied s t c es
    → may_stand k t ≡ true
unfolding transition next is_terminal is_recovery can_open_dispute
may_stand_after p2p s e ctx h = refl
may_stand_after broker awaiting_lock e ctx h = ground arith
may_stand_after broker awaiting_payment e ctx h = ground arith
may_stand_after broker awaiting_delivery e ctx h = ground arith
may_stand_after broker releasing e ctx h = ground arith
may_stand_after broker completed e ctx h = ground arith
may_stand_after broker cancelled e ctx h = ground arith
may_stand_after broker refunding e ctx h = ground arith
may_stand_after broker refunded e ctx h = ground arith
may_stand_after broker disputed e ctx h = ground arith

run-may_stand :
    {k : TradeKind} {evs : List TradeEvent} {effs : List TradeEffect} {s : TradeState}
    → Run k evs effs s
    → may_stand k s ≡ true
run-may_stand {k = p2p} created = refl
run-may_stand {k = broker} created = refl
run-may_stand {k} (accepted {s} run e ctx hk hr h) = may_stand_after k s e ctx h

-- What an event that carries out a step tells of the positions before and after it, for one step `x`.
abbrev Advances : TradeKind → TradeState → TradeState → EscrowStep → EscrowStep → Type 0
Advances k s t step x =
    ((stepper_position s k).current ≡ some step)
    × (is_done match_step (stepper_position s k) ≡ true)
    × (is_done x (stepper_position t k) ≡ (same_step x step || is_done x (stepper_position s k)))

advance :
    (k : TradeKind) (s : TradeState) (x : EscrowStep) (e : TradeEvent) (ctx : TradeContext)
    {step : EscrowStep} {t : TradeState} {c : Bool} {es : List TradeEffect}
    → may_stand k s ≡ true
    → ctx.kind ≡ k
    → step_of e ≡ some step
    → (stepper_position s k).outcome ≡ in_progress
    → transition s e ctx ≡ applied s t c es
    → Advances k s t step x
unfolding transition next is_terminal is_recovery can_open_dispute stepper_position same_step
advance p2p awaiting_lock x e ctx stands hk hs open_yet h =
    (ground arith, ground arith, ground arith)
advance p2p awaiting_payment x e ctx stands hk hs open_yet h =
    (ground arith, ground arith, ground arith)
advance p2p awaiting_delivery x e ctx stands hk hs open_yet h =
    (ground arith, ground arith, ground arith)
advance p2p releasing x e ctx stands hk hs open_yet h = (ground arith, ground arith, ground arith)
advance p2p completed x e ctx stands hk hs open_yet h = cc
advance p2p cancelled x e ctx stands hk hs open_yet h = cc
advance p2p refunding x e ctx stands hk hs open_yet h = cc
advance p2p refunded x e ctx stands hk hs open_yet h = cc
advance p2p disputed x e ctx stands hk hs open_yet h = cc
advance broker awaiting_lock x e ctx stands hk hs open_yet h = cc
advance broker awaiting_payment x e ctx stands hk hs open_yet h =
    (ground arith, ground arith, ground arith)
advance broker awaiting_delivery x e ctx stands hk hs open_yet h =
    (ground arith, ground arith, ground arith)
advance broker releasing x e ctx stands hk hs open_yet h =
    (ground arith, ground arith, ground arith)
advance broker completed x e ctx stands hk hs open_yet h = cc
advance broker cancelled x e ctx stands hk hs open_yet h = cc
advance broker refunding x e ctx stands hk hs open_yet h = cc
advance broker refunded x e ctx stands hk hs open_yet h = cc
advance broker disputed x e ctx stands hk hs open_yet h = cc

-- In every history of a trade of either kind, while the trade is in progress, an accepted event that
-- carries out a step of the timeline (a lock, a payment or a release) carries out the step that the
-- position before it has in progress; the match is done by then, and after the event exactly the steps
-- that were done before it and this step are done.
pub stepper_position-advances :
    {k : TradeKind} {evs : List TradeEvent} {effs : List TradeEffect} {s : TradeState}
    → Run k evs effs s
    → (e : TradeEvent) (ctx : TradeContext) {step : EscrowStep} {t : TradeState} {c : Bool}
      {es : List TradeEffect}
    → ctx.kind ≡ k
    → step_of e ≡ some step
    → (stepper_position s k).outcome ≡ in_progress
    → transition s e ctx ≡ applied s t c es
    → ((stepper_position s k).current ≡ some step)
      × (is_done match_step (stepper_position s k) ≡ true)
      × ((x : EscrowStep)
          → is_done x (stepper_position t k)
            ≡ (same_step x step || is_done x (stepper_position s k)))
stepper_position-advances {k} {s} run e ctx hk hs open_yet h =
    let stands = run-may_stand run in
    let one = advance k s match_step e ctx stands hk hs open_yet h in
    (one.0, one.1, λ x. (advance k s x e ctx stands hk hs open_yet h).2)
