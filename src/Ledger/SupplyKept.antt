-- ===== src/Ledger/SupplyKept.antt =====
-- Rights, purchases and ends of tickets of packages/native/src/protocol.ts conserve the supply of every asset.
use qlyphs_wallet.Prelude.{
  ◌+◌, ◌≤◌, ◌>>=◌, Option, none, some, Bool, true, false, List, [], ◌∷◌, length, ◌==◌,
  if◌then◌else◌, ◌≡◌, refl, sym, ap, subst, ◌∙◌, arith, Bool-cases, inl, inr, ◌⊎◌, Result, ok,
  ==→eq, >>=-eq-ok, ok-inj, ==-ne,
}
use qlyphs_wallet.Prelude.Maps.{Pair, number_key, text_key, pair_key, get}
use qlyphs_wallet.Refusal.{Refusal}
use qlyphs_wallet.Operations.{HexId}
use qlyphs_wallet.Ledger.Data.{
  State, Asset, MintRight, no_right, exhausted, anchored, Receipt, Ticket, settled, NativeEvent,
  multisig_event, created_event, approved_event, closed_event, paid_event, remarked_event,
  batch_completed_event, Verdict, ticket_key, right_misused, accepted,
}
use qlyphs_wallet.Ledger.Change.{change, release, plus}
use qlyphs_wallet.Ledger.Supply.{
  Sound, held, locked_in, minted_of, minted_amount, minted_part, within_part, WithinCap, is_locked,
}
use qlyphs_wallet.Ledger.Conservation.{release-Sound, unlocked-Sound, booked-Sound}
use qlyphs_wallet.Ledger.LotRoom.{LotOpen}
use qlyphs_wallet.Ledger.Rights.{
  ProgressiveLot, settled_by, settlement_receipt, with_right, next_right, journaled, use_right,
  use_rights, righted, with_anchor,
}
use qlyphs_wallet.Ledger.Purchase.{is_purchase, settle, approve_ticket, when_locked, end_tickets}

-- The supply is a matter of the assets, the balances and the tickets.
pub same-Sound :
    (s s' : State)
    → s'.assets ≡ s.assets
    → s'.balances ≡ s.balances
    → s'.tickets ≡ s.tickets
    → Sound s
    → Sound s'
unfolding held locked_in minted_of
same-Sound s s' ea eb et sound = record {
  conserved = λ x. rw (ea, eb, et) (sound.conserved x);
  capped = λ x. subst (λ m. WithinCap (get m x)) (sym ea) (sound.capped x);
}

journaled-Sound : (s : State) (r : Receipt) (v : Verdict) → Sound s → Sound (journaled s r v)
journaled-Sound s r v sound = same-Sound s (journaled s r v) refl refl refl sound

replaced :
    (s : State) (asset x : HexId) (a : Asset)
    → get s.assets asset ≡ some a
    → (if asset == x then a.minted else minted_amount (get s.assets x))
      ≡ minted_amount (get s.assets x)
replaced s asset x a there = elim (Bool-cases (asset == x)) [
  | inl e ↦
      rw e
        (sym (ap minted_amount there) ∙ ap (λ y. minted_amount (get s.assets y)) (==→eq asset x e))
  | inr e ↦ rw e
]

-- A use that mints nothing.
misused-Sound :
    (s : State) (r : Receipt) (asset : HexId) (a : Asset)
    → get s.assets asset ≡ some a
    → Sound s
    → Sound (with_right s r asset a a.minted)
unfolding held locked_in minted_of
misused-Sound s r asset a there sound =
    let new : Asset = record a { right = next_right s r a a.minted } in
    record {
      conserved = λ x.
          sound.conserved x ∙ sym (minted_part s.assets asset x new ∙ replaced s asset x a there);
      capped = λ x.
          within_part s.assets asset x new (subst WithinCap there (sound.capped asset))
            (sound.capped x);
    }

use_right-Sound :
    (s : State) (r : Receipt) (lot : ProgressiveLot) (a : Asset) (buyer : Option HexId) {s' : State}
    → get s.assets lot.asset ≡ some a
    → (buyer ≡ none) ⊎ (a.minted + lot.amount ≤ a.definition.cap)
    → Sound s
    → use_right s r lot a buyer ≡ ok s'
    → Sound s'
use_right-Sound s r lot a none there room sound h = subst Sound (ok-inj h) (
    journaled-Sound (with_right s r lot.asset a a.minted) r right_misused
      (misused-Sound s r lot.asset a there sound))
use_right-Sound s r lot a (some buyer) there (inl e) sound h = cc
use_right-Sound s r lot a (some buyer) there (inr room) sound h =
    let given =
      >>=-eq-ok
        (change (with_right s r lot.asset a (a.minted + lot.amount)) lot.asset buyer
          (plus lot.amount))
        _ h in
    subst Sound (ok-inj given.2) (
      journaled-Sound given.0 r accepted (
        booked-Sound s lot.asset buyer lot.amount
          (record a {
            minted = a.minted + lot.amount;
            right = next_right s r a (a.minted + lot.amount);
          })
          (ap (λ o. minted_amount o + lot.amount) there) room sound given.1))

with_anchor-ok : (a : Asset) (right : MintRight) {b : Asset} → with_anchor a right ≡ ok b → a ≡ b
with_anchor-ok a (anchored x) h = ok-inj h
with_anchor-ok a no_right h = cc
with_anchor-ok a exhausted h = cc

righted-ok : (o : Option Asset) {a : Asset} → righted o ≡ ok a → o ≡ some a
righted-ok none h = cc
righted-ok (some a) h = ap some (with_anchor-ok a a.right h)

-- Beside another use in the same receipt, none has a buyer.
not_alone :
    (r : Receipt) (lot : ProgressiveLot) (signer : Option HexId)
    → settled_by r false lot signer ≡ none
unfolding settlement_receipt
not_alone r lot none = refl
not_alone r lot (some signer) = ground arith

use_rights-Sound_many :
    (s : State) (r : Receipt) (used : List ProgressiveLot) {s' : State}
    → Sound s
    → use_rights s r false used ≡ ok s'
    → Sound s'
unfolding use_rights
use_rights-Sound_many s r [] sound h = subst Sound (ok-inj h) sound
use_rights-Sound_many s r (lot ∷ used) sound h =
    let a = >>=-eq-ok (righted (get s.assets lot.asset)) _ h in
    let next = >>=-eq-ok (use_right s r lot a.0 (settled_by r false lot r.signer)) _ a.2 in
    use_rights-Sound_many next.0 r used
      (use_right-Sound s r lot a.0 _ (righted-ok (get s.assets lot.asset) a.1)
        (inl (not_alone r lot r.signer)) sound next.1)
      next.2

pub use_rights-Sound :
    (s : State) (r : Receipt) (lot : ProgressiveLot) (used : List ProgressiveLot) {s' : State}
    → Sound s
    → LotOpen s.assets lot
    → use_rights s r (length used == 0) (lot ∷ used) ≡ ok s'
    → Sound s'
unfolding use_rights
use_rights-Sound s r lot (u ∷ used) {s'} sound room h =
    use_rights-Sound_many s r (lot ∷ u ∷ used) sound (
      subst (λ b. use_rights s r b (lot ∷ u ∷ used) ≡ ok s')
        (==-ne (length (u ∷ used)) 0 (omega arith)) h)
use_rights-Sound s r lot [] sound room h =
    let a = >>=-eq-ok (righted (get s.assets lot.asset)) _ h in
    let next = >>=-eq-ok (use_right s r lot a.0 (settled_by r true lot r.signer)) _ a.2 in
    let there = righted-ok (get s.assets lot.asset) a.1 in
    subst Sound (ok-inj next.2) (
      use_right-Sound s r lot a.0 _ there
        (inr (
          subst (λ b. b.minted + lot.amount ≤ b.definition.cap) (same_asset (sym room.1 ∙ there))
            room.3))
        sound next.1)
  where
    same_asset : {x y : Asset} → ◌≡◌ {A = Option Asset} (some x) (some y) → x ≡ y
    same_asset h = cc

settle-Sound :
    (s : State) (k : Pair) (r : Receipt) (t : Ticket) {s' : State}
    → get s.tickets k ≡ some t
    → is_locked t.status ≡ true
    → Sound s
    → settle s k r t ≡ ok s'
    → Sound s'
unfolding settle
settle-Sound s k r t there open_ticket sound h =
    let paid = >>=-eq-ok (change s t.offer.asset t.offer.buyer (plus t.offer.amount)) _ h in
    subst Sound (ok-inj paid.2) (
      unlocked-Sound s paid.0 t.offer.buyer k t settled (some r.hash) paid.1 there open_ticket refl
        sound)

bought-Sound :
    (s : State) (k : Pair) (r : Receipt) (t : Ticket) (bought : Bool) {s' : State}
    → get s.tickets k ≡ some t
    → is_locked t.status ≡ true
    → Sound s
    → (if bought then settle s k r t else release s k t) ≡ ok s'
    → Sound s'
bought-Sound s k r t true there open_ticket sound h = settle-Sound s k r t there open_ticket sound h
bought-Sound s k r t false there open_ticket sound h = release-Sound s k t there sound h

approved-Sound :
    (s : State) (k : Pair) (r : Receipt) (t : Ticket) (by_buyer : Bool) {s' : State}
    → get s.tickets k ≡ some t
    → is_locked t.status ≡ true
    → Sound s
    → (if by_buyer
        then (is_purchase r t >>= λ bought. if bought then settle s k r t else release s k t)
        else ok s)
      ≡ ok s'
    → Sound s'
approved-Sound s k r t false there open_ticket sound h = subst Sound (ok-inj h) sound
approved-Sound s k r t true there open_ticket sound h =
    let bought = >>=-eq-ok (is_purchase r t) _ h in
    bought-Sound s k r t bought.0 there open_ticket sound bought.2

-- Nothing happens to a ticket that is not locked.
when_locked-Sound :
    (s : State) (k : Pair) (o : Option Ticket) (act : Ticket → Result Refusal State) {s' : State}
    → get s.tickets k ≡ o
    → ((t : Ticket) (s'' : State)
        → get s.tickets k ≡ some t
        → is_locked t.status ≡ true
        → act t ≡ ok s''
        → Sound s'')
    → Sound s
    → when_locked s o act ≡ ok s'
    → Sound s'
when_locked-Sound s k none act there go sound h = subst Sound (ok-inj h) sound
when_locked-Sound s k (some t) act there go sound h = locked_or_not (is_locked t.status) refl h
  where
    locked_or_not :
        (b : Bool) {s' : State}
        → is_locked t.status ≡ b
        → (if b then act t else ok s) ≡ ok s'
        → Sound s'
    locked_or_not true {s'} e h = go t s' there e h
    locked_or_not false e h = subst Sound (ok-inj h) sound

pub end_tickets-Sound :
    (s : State) (r : Receipt) (es : List NativeEvent) {s' : State}
    → Sound s
    → end_tickets s r es ≡ ok s'
    → Sound s'
unfolding end_tickets approve_ticket
end_tickets-Sound s r [] sound h = subst Sound (ok-inj h) sound
end_tickets-Sound s r (approved_event m p approver ∷ es) sound h =
    let k = ticket_key m p in
    let next =
      >>=-eq-ok (when_locked s (get s.tickets k) (λ t. approve_ticket s k r t approver)) _ h in
    end_tickets-Sound next.0 r es
      (when_locked-Sound s k (get s.tickets k) (λ t. approve_ticket s k r t approver) refl
        (λ t after there open_ticket done.
          approved-Sound s k r t (approver == t.offer.buyer) there open_ticket sound done)
        sound next.1)
      next.2
end_tickets-Sound s r (closed_event m p ∷ es) sound h =
    let k = ticket_key m p in
    let next = >>=-eq-ok (when_locked s (get s.tickets k) (λ t. release s k t)) _ h in
    end_tickets-Sound next.0 r es
      (when_locked-Sound s k (get s.tickets k) (λ t. release s k t) refl
        (λ t after there open_ticket done. release-Sound s k t there sound done) sound next.1)
      next.2
end_tickets-Sound s r (multisig_event i ss t c n ∷ es) sound h = end_tickets-Sound s r es sound h
end_tickets-Sound s r (created_event m p o ∷ es) sound h = end_tickets-Sound s r es sound h
end_tickets-Sound s r (paid_event p t a ∷ es) sound h = end_tickets-Sound s r es sound h
end_tickets-Sound s r (remarked_event p ∷ es) sound h = end_tickets-Sound s r es sound h
end_tickets-Sound s r (batch_completed_event ∷ es) sound h = end_tickets-Sound s r es sound h
