-- ===== src/Ledger/Purchase.antt =====
-- The purchase of an offer and the end of a ticket: `buyCall`, `isPurchase` and the last loop of
-- `applyReceipt` of packages/native/src/protocol.ts.
use qlyphs_wallet.Prelude.{
  ℕ, Option, none, some, Bool, true, false, ◌&&◌, List, [], ◌∷◌, ltb, ◌==◌, same_text,
  if◌then◌else◌, suc, Result, ok, ◌>>=◌,
}
use qlyphs_wallet.Prelude.Maps.{Pair, pair_key, get}
use qlyphs_wallet.Refusal.{Refusal}
use qlyphs_wallet.Operations.{HexId}
use qlyphs_wallet.Wire.Calls.{Call, approve, pay, batch, Calls, more_calls, no_calls, call_bytes}
use qlyphs_wallet.Wire.Parsing.{parse_call}
use qlyphs_wallet.Ledger.Data.{
  State, Receipt, Ticket, settled, NativeEvent, approved_event, closed_event, ticket_key,
}
use qlyphs_wallet.Ledger.Change.{change, plus, release, with_status}
use qlyphs_wallet.Ledger.Supply.{is_locked}
use qlyphs_wallet.Ledger.Context.{Payment, payments, completions, is_signer}

-- The sale fee's leg, where there is a fee.
abbrev pub fee_leg : Ticket → Calls
fee_leg t =
    if ltb 0 t.offer.fee then more_calls (pay t.offer.fee_to t.offer.fee) no_calls else no_calls

unfoldable pub buy_call : Ticket → Result Refusal Call
buy_call t = parse_call 4 t.call_hex >>= λ call. ok (
    batch (
      more_calls (approve t.multisig t.proposal call)
        (more_calls (pay t.offer.payout t.offer.price) (fee_leg t))))

abbrev pub approvals : List NativeEvent → ℕ
approvals [] = 0
approvals (approved_event m p a ∷ es) = suc (approvals es)
approvals (e ∷ es) = approvals es

abbrev pub fee_payment : Ticket → List Payment
fee_payment t =
    if ltb 0 t.offer.fee
    then record { payer = t.offer.buyer; to = t.offer.fee_to; amount = t.offer.fee } ∷ []
    else []

-- `expected`, with the buyer as the payer of each leg.
abbrev pub expected_payments : Ticket → List Payment
expected_payments t =
    record { payer = t.offer.buyer; to = t.offer.payout; amount = t.offer.price } ∷ fee_payment t

abbrev pub same_payments : List Payment → List Payment → Bool
same_payments [] [] = true
same_payments (p ∷ ps) (q ∷ qs) =
    (p.payer == q.payer && p.to == q.to && p.amount == q.amount) && same_payments ps qs
same_payments _ _ = false

-- What `isPurchase` asks of the events of a receipt.
unfoldable pub purchase_events : Receipt → Ticket → Bool
purchase_events r t =
    completions r.events == 1
    && approvals r.events == 1
    && same_payments (payments r.events) (expected_payments t)

-- `isPurchase`: the call of the purchase is written only for a receipt of the buyer.
unfoldable pub is_purchase : Receipt → Ticket → Result Refusal Bool
is_purchase r t =
    if r.success && is_signer r.signer t.offer.buyer
    then (buy_call t >>= λ call.
        call_bytes call >>= λ bs. ok (same_text r.call_hex bs && purchase_events r t))
    else ok false

unfoldable pub settle : State → Pair → Receipt → Ticket → Result Refusal State
settle s k r t = change s t.offer.asset t.offer.buyer (plus t.offer.amount) >>= λ paid.
    ok (with_status paid k t settled (some r.hash))

-- The first approval by the buyer: a purchase settles the ticket, any other consumes it.
unfoldable pub approve_ticket : State → Pair → Receipt → Ticket → HexId → Result Refusal State
approve_ticket s k r t approver =
    if approver == t.offer.buyer
    then (is_purchase r t >>= λ bought. if bought then settle s k r t else release s k t)
    else ok s

-- A ticket that is there and locked goes on; for any other the loop continues.
abbrev pub when_locked :
    State → Option Ticket → (Ticket → Result Refusal State) → Result Refusal State
when_locked s none act = ok s
when_locked s (some t) act = if is_locked t.status then act t else ok s

-- The last loop of `applyReceipt`.
unfoldable pub end_tickets : State → Receipt → List NativeEvent → Result Refusal State
end_tickets s r [] = ok s
end_tickets s r (approved_event multisig proposal approver ∷ es) = do
  let k = ticket_key multisig proposal
  next ← when_locked s (get s.tickets k) (λ t. approve_ticket s k r t approver)
  end_tickets next r es
end_tickets s r (closed_event multisig proposal ∷ es) = do
  let k = ticket_key multisig proposal
  next ← when_locked s (get s.tickets k) (λ t. release s k t)
  end_tickets next r es
end_tickets s r (e ∷ es) = end_tickets s r es

abbrev pub expire_ticket : State → Pair → Option Ticket → Result Refusal State
expire_ticket s k none = ok s
expire_ticket s k (some t) = if ltb t.offer.expiry s.height then release s k t else ok s

-- The loop of `apply` over the tickets that have expired at a height.
unfoldable pub expire_tickets : State → List Pair → Result Refusal State
expire_tickets s [] = ok s
expire_tickets s (k ∷ ks) = do next ← expire_ticket s k (get s.tickets k); expire_tickets next ks
