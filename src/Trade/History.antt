-- ===== src/Trade/History.antt =====
-- The histories of a trade under packages/shared/src/trade-machine.ts: the events that `transition`
-- accepted, newest first, and the effects they asked for.
use qlyphs_wallet.Prelude.{
  ℕ, subst, ◌⊎◌, inl, inr, ◌+◌, ◌≤◌, Bool, true, false, List, [], ◌∷◌, ◌++◌, ◌≡◌, refl, sym, arith,
  any_of, ltb,
}
use qlyphs_wallet.Trade.Machine.{
  TradeState, awaiting_lock, awaiting_payment, awaiting_delivery, releasing, completed, cancelled,
  refunding, refunded, disputed, TradeEvent, payment_confirmed, dispute_resolved, release,
  TradeEffect, restore_offer_remaining, increment_completed_trades, TradeContext, TradeKind, p2p,
  broker, transition, applied, next, is_terminal, is_recovery, can_open_dispute,
}

-- `tally e es` counts the effects of a kind.
abbrev pub is_completion : TradeEffect → ℕ
is_completion increment_completed_trades = 1
is_completion _ = 0

abbrev pub is_restoration : TradeEffect → ℕ
is_restoration restore_offer_remaining = 1
is_restoration _ = 0

abbrev pub tally : (TradeEffect → ℕ) → List TradeEffect → ℕ
tally p [] = 0
tally p (e ∷ es) = p e + tally p es

tally-append :
    (p : TradeEffect → ℕ) (es fs : List TradeEffect) → tally p (es ++ fs) ≡ tally p es + tally p fs
tally-append p [] fs = omega arith
tally-append p (e ∷ es) fs = omega (arith, tally-append p es fs)

-- A trade is created awaiting the seller's lock, or the buyer's payment when it is brokered.
abbrev pub start : TradeKind → TradeState
start p2p = awaiting_lock
start broker = awaiting_payment

-- Each accepted event was read with the trade's own kind and with `offer_restored` saying whether an
-- earlier event has given the amount back to the offer.
pub data Run (k : TradeKind) : List TradeEvent → List TradeEffect → TradeState → Type 0 where
  created : Run k [] [] (start k)
  accepted :
      {evs : List TradeEvent} {effs : List TradeEffect} {s : TradeState}
      → Run k evs effs s
      → (e : TradeEvent) (ctx : TradeContext) → ctx.kind ≡ k
      → ctx.offer_restored ≡ ltb 0 (tally is_restoration effs)
      → {t : TradeState} {c : Bool} {es : List TradeEffect} → transition s e ctx ≡ applied s t c es
      → Run k (e ∷ evs) (es ++ effs) t

abbrev pub is_completed : TradeState → ℕ
is_completed completed = 1
is_completed _ = 0

start_open : (k : TradeKind) → 0 ≡ is_completed (start k)
start_open p2p = refl
start_open broker = refl

completion_step :
    (s : TradeState) (e : TradeEvent) (ctx : TradeContext) {t : TradeState} {c : Bool}
    {es : List TradeEffect}
    → transition s e ctx ≡ applied s t c es
    → tally is_completion es + is_completed s ≡ is_completed t
unfolding transition next is_terminal is_recovery can_open_dispute
completion_step awaiting_lock e ctx h = ground arith
completion_step awaiting_payment e ctx h = ground arith
completion_step awaiting_delivery e ctx h = ground arith
completion_step releasing e ctx h = ground arith
completion_step completed e ctx h = ground arith
completion_step cancelled e ctx h = ground arith
completion_step refunding e ctx h = ground arith
completion_step refunded e ctx h = ground arith
completion_step disputed e ctx h = ground arith

-- In every history of a trade of either kind, the count of completed trades has been incremented
-- exactly once if the trade is completed, and never otherwise.
pub completed_counted_once :
    {k : TradeKind} {evs : List TradeEvent} {effs : List TradeEffect} {s : TradeState}
    → Run k evs effs s
    → tally is_completion effs ≡ is_completed s
completed_counted_once {k} created = start_open k
completed_counted_once (accepted {effs} {s} run e ctx hk hr {t} {c} {es} h) = omega (
  arith,
  tally-append is_completion es effs,
  completion_step s e ctx h,
  completed_counted_once run,
)

-- How often the amount can have been given back to the offer in a state: `ReturnedTo k s n`.
abbrev pub ReturnedTo : TradeKind → TradeState → ℕ → Type 0
ReturnedTo k awaiting_lock n = n ≡ 0
ReturnedTo k awaiting_payment n = n ≡ 0
ReturnedTo k awaiting_delivery n = n ≡ 0
ReturnedTo k cancelled n = n ≡ 1
ReturnedTo k refunded n = n ≡ 1
ReturnedTo p2p _ n = n ≤ 1
ReturnedTo broker _ n = n ≡ 0

restoration_step :
    (k : TradeKind) (s : TradeState) (e : TradeEvent) (ctx : TradeContext) (n : ℕ)
    → ctx.kind ≡ k
    → ctx.offer_restored ≡ ltb 0 n
    → ReturnedTo k s n
    → {t : TradeState} {c : Bool} {es : List TradeEffect} → transition s e ctx ≡ applied s t c es
    → ReturnedTo k t (tally is_restoration es + n)
unfolding transition next is_terminal is_recovery can_open_dispute
restoration_step p2p awaiting_lock e ctx n hk hr hn h = ground arith
restoration_step p2p awaiting_payment e ctx n hk hr hn h = ground arith
restoration_step p2p awaiting_delivery e ctx n hk hr hn h = ground arith
restoration_step p2p releasing e ctx n hk hr hn h = ground arith
restoration_step p2p completed e ctx n hk hr hn h = ground arith
restoration_step p2p cancelled e ctx n hk hr hn h = ground arith
restoration_step p2p refunding e ctx n hk hr hn h = ground arith
restoration_step p2p refunded e ctx n hk hr hn h = ground arith
restoration_step p2p disputed e ctx n hk hr hn h = ground arith
restoration_step broker awaiting_lock e ctx n hk hr hn h = ground arith
restoration_step broker awaiting_payment e ctx n hk hr hn h = ground arith
restoration_step broker awaiting_delivery e ctx n hk hr hn h = ground arith
restoration_step broker releasing e ctx n hk hr hn h = ground arith
restoration_step broker completed e ctx n hk hr hn h = ground arith
restoration_step broker cancelled e ctx n hk hr hn h = ground arith
restoration_step broker refunding e ctx n hk hr hn h = ground arith
restoration_step broker refunded e ctx n hk hr hn h = ground arith
restoration_step broker disputed e ctx n hk hr hn h = ground arith

start_kept : (k : TradeKind) → ReturnedTo k (start k) 0
start_kept p2p = refl
start_kept broker = refl

-- In every history of a trade whose context says truthfully whether its amount was given back to the
-- offer, a cancelled or refunded trade has given it back exactly once, a trade that awaits its lock,
-- its payment or its delivery has not given it back, and in no other state was it given back more
-- than once; a brokered trade in those other states has not given it back at all.
pub offer_restored_once :
    {k : TradeKind} {evs : List TradeEvent} {effs : List TradeEffect} {s : TradeState}
    → Run k evs effs s
    → ReturnedTo k s (tally is_restoration effs)
offer_restored_once {k} created = start_kept k
offer_restored_once {k} (accepted {effs} {s} run e ctx hk hr {t} {c} {es} h) =
    subst (ReturnedTo k t) (sym (tally-append is_restoration es effs))
      (restoration_step k s e ctx (tally is_restoration effs) hk hr (offer_restored_once run) h)

-- An event that lets the QTC go to the buyer: a confirmed payment, or an administrator's decision.
abbrev pub entitles_buyer : TradeEvent → Bool
entitles_buyer (payment_confirmed tx log) = true
entitles_buyer (dispute_resolved release) = true
entitles_buyer _ = false

-- States that the QTC can only leave towards the buyer by then.
abbrev pub is_delivering : TradeState → Bool
is_delivering awaiting_delivery = true
is_delivering releasing = true
is_delivering completed = true
is_delivering _ = false

not_delivering : (k : TradeKind) → is_delivering (start k) ≡ true → false ≡ true
not_delivering p2p h = h
not_delivering broker h = h

delivery_step :
    (s : TradeState) (e : TradeEvent) (ctx : TradeContext) {t : TradeState} {c : Bool}
    {es : List TradeEffect}
    → transition s e ctx ≡ applied s t c es
    → is_delivering t ≡ true
    → (entitles_buyer e ≡ true) ⊎ (is_delivering s ≡ true)
unfolding transition next is_terminal is_recovery can_open_dispute
delivery_step awaiting_lock e ctx h d = ground arith
delivery_step awaiting_payment e ctx h d = ground arith
delivery_step awaiting_delivery e ctx h d = ground arith
delivery_step releasing e ctx h d = ground arith
delivery_step completed e ctx h d = ground arith
delivery_step cancelled e ctx h d = ground arith
delivery_step refunding e ctx h d = ground arith
delivery_step refunded e ctx h d = ground arith
delivery_step disputed e ctx h d = ground arith

-- In every history, a trade that awaits its delivery, releases or is completed has accepted a
-- confirmed payment or a dispute that was resolved for the buyer.
pub delivery_entitled :
    {k : TradeKind} {evs : List TradeEvent} {effs : List TradeEffect} {s : TradeState}
    → Run k evs effs s
    → is_delivering s ≡ true
    → any_of entitles_buyer evs ≡ true
delivery_entitled {k} created d = not_delivering k d
delivery_entitled (accepted {evs} {effs} {s} run e ctx hk hr {t} {c} {es} h) d =
    elim (delivery_step s e ctx h d) [
      | inl he ↦ ground arith
      | inr hs ↦ ground (arith, delivery_entitled run hs)
    ]
