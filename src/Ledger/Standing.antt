-- ===== src/Ledger/Standing.antt =====
-- The block that a state of packages/native/src/protocol.ts stands at is not changed by operations,
-- uses of rights or ends of tickets.
use qlyphs_wallet.Prelude.{
  ℕ, ◌+◌, Option, none, some, not, List, leb, ltb, ◌==◌, ◌&&◌, ◌||◌, ◌≡◌, sym, ap, ◌∙◌, Result, ok,
  >>=-eq-ok, require_that-eq-ok, ok-inj,
}
use qlyphs_wallet.Prelude.Maps.{Pair, number_key, text_key, pair_key, get}
use qlyphs_wallet.Refusal.{
  Refusal, wrong_byte_length, zero_sender, wrong_genesis, wrong_sequence,
  inscriptions_cannot_be_minted, progressive_mints_by_right, issuer_only, mint_cap_limit,
  inscription_amount, zero_recipient, inscription_counter, asset_already_exists, symbol_taken,
}
use qlyphs_wallet.Operations.{
  HexId, zero_id, max_u64, Operation, Envelope, Offer, deploy, mint, transfer, offer, inscribe,
  deploy_progressive, deploy_progressive_v2, fee_rate, fee_admin,
}
use qlyphs_wallet.Fees.State.{max_safe, FeeRules, FeeState, is_id}
use qlyphs_wallet.Progressive.Quote.{v1, v2, progressive_mint_quote}
use qlyphs_wallet.Wire.Bytes.{asset_id}
use qlyphs_wallet.Wire.Calls.{Call, call_bytes}
use qlyphs_wallet.Ledger.Data.{
  State, Asset, progressive_profile, first_inscription, AssetDefinition, MintRight, Receipt, Rules,
  or_zero, Ticket, TicketStatus, locked, settled, released,
}
use qlyphs_wallet.Ledger.Change.{Delta, change, plus, minus, release, release_as}
use qlyphs_wallet.Ledger.Offers.{proposal_of, check_offer, absent, lock_offer}
use qlyphs_wallet.Ledger.Apply.{
  govern_with, known_asset, apply_as, is_inscription, is_open, whole_inscription, deploy_asset,
  mint_asset, transfer_asset, inscribe_asset, deploy_lots, apply_kind,
}
use qlyphs_wallet.Ledger.Supply.{change_lem}
use qlyphs_wallet.Ledger.Rights.{ProgressiveLot, with_right, use_right}
use qlyphs_wallet.Ledger.Purchase.{settle}

-- Which block a state stands at.
pub record Position : Type 0 where
  pub height : ℕ
  pub hash : HexId
  pub finalized : ℕ

abbrev pub position : State → Position
position s = record { height = s.height; hash = s.hash; finalized = s.finalized }

change-position :
    (s : State) (asset owner : HexId) (d : Delta) {s' : State}
    → change s asset owner d ≡ ok s'
    → position s' ≡ position s
change-position s asset owner d h = ap position (change_lem s asset owner d h).1

deploy_asset-position :
    (s : State) (owner sequence : ℕ) (d : AssetDefinition) (right : MintRight) {s' : State}
    → deploy_asset s owner sequence d right ≡ ok s'
    → position s' ≡ position s
unfolding deploy_asset
deploy_asset-position s owner sequence d right h =
    let found = >>=-eq-ok (asset_id owner sequence) _ h in
    let fresh = require_that-eq-ok (absent (get s.assets found.0)) asset_already_exists _ found.2 in
    let free = require_that-eq-ok (absent (get s.symbols d.symbol)) symbol_taken _ fresh.1 in
    sym (ap position (ok-inj free.1))

mint_asset-position :
    (s : State) (owner asset : ℕ) (a : Asset) (amount : ℕ) {s' : State}
    → mint_asset s owner asset a amount ≡ ok s'
    → position s' ≡ position s
unfolding mint_asset
mint_asset-position s owner asset a amount h =
    let one =
      require_that-eq-ok (not (is_inscription a.definition.policy)) inscriptions_cannot_be_minted _
        h in
    let two =
      require_that-eq-ok (absent (progressive_profile a.definition.policy))
        progressive_mints_by_right _ one.1 in
    let three =
      require_that-eq-ok (is_open a.definition.policy || a.creator == owner) issuer_only _ two.1 in
    let four =
      require_that-eq-ok (leb amount a.definition.limit && leb (a.minted + amount) a.definition.cap)
        mint_cap_limit _ three.1 in
    change-position _ asset owner (plus amount) four.1

transfer_asset-position :
    (s : State) (owner asset : ℕ) (a : Asset) (amount to : ℕ) {s' : State}
    → transfer_asset s owner asset a amount to ≡ ok s'
    → position s' ≡ position s
unfolding transfer_asset
transfer_asset-position s owner asset a amount to h =
    let one = require_that-eq-ok (whole_inscription a amount) inscription_amount _ h in
    let two = require_that-eq-ok (not (to == zero_id)) zero_recipient _ one.1 in
    let sent = >>=-eq-ok (change s asset owner (minus amount)) _ two.1 in
    change-position sent.0 asset to (plus amount) sent.2
    ∙ change-position s asset owner (minus amount) sent.1

inscribe_asset-position :
    (s : State) (r : Receipt) (owner sequence : ℕ) (t c : List ℕ) {s' : State}
    → inscribe_asset s r owner sequence t c ≡ ok s'
    → position s' ≡ position s
unfolding inscribe_asset
inscribe_asset-position s r owner sequence t c h =
    let found = >>=-eq-ok (asset_id owner sequence) _ h in
    let fresh = require_that-eq-ok (absent (get s.assets found.0)) asset_already_exists _ found.2 in
    let counted =
      require_that-eq-ok
        (leb s.next_inscription max_safe && leb first_inscription s.next_inscription)
        inscription_counter _ fresh.1 in
    let given = >>=-eq-ok (change _ found.0 owner (plus 1)) _ counted.1 in
    sym (ap position (ok-inj given.2)) ∙ change-position _ found.0 owner (plus 1) given.1

lock_offer-position :
    (s : State) (r : Receipt) (owner : ℕ) (p : Offer) (c : Call) {s' : State}
    → lock_offer s r owner p c ≡ ok s'
    → position s' ≡ position s
unfolding lock_offer
lock_offer-position s r owner p c h =
    let call = >>=-eq-ok (proposal_of c) _ h in
    let number = >>=-eq-ok (check_offer s r owner p call.0) _ call.2 in
    let paid = >>=-eq-ok (change s p.asset owner (minus p.amount)) _ number.2 in
    let bytes = >>=-eq-ok (call_bytes call.0.call) _ paid.2 in
    sym (ap position (ok-inj bytes.2)) ∙ change-position s p.asset owner (minus p.amount) paid.1

govern-position :
    (s : State) (act : FeeRules → FeeState → Result Refusal FeeState) (f : Option FeeState)
    (schedule : Option FeeRules) {s' : State}
    → govern_with s act f schedule ≡ ok s'
    → position s' ≡ position s
govern-position s act none schedule h = cc
govern-position s act (some f) none h = cc
govern-position s act (some f) (some schedule) h =
    let next = >>=-eq-ok (act schedule f) _ h in sym (ap position (ok-inj next.2))

apply_kind-position :
    (s : State) (r : Receipt) (owner sequence : ℕ) (op : Operation) (call : Call) (rules : Rules)
    {s' : State}
    → apply_kind s r owner sequence op call rules ≡ ok s'
    → position s' ≡ position s
unfolding apply_kind deploy_lots
apply_kind-position s r owner sequence (fee_rate e v) call rules h =
    govern-position s _ s.fees rules.fee_schedule h
apply_kind-position s r owner sequence (fee_admin p) call rules h =
    govern-position s _ s.fees rules.fee_schedule h
apply_kind-position s r owner sequence (deploy_progressive p) call rules h =
    let quote = >>=-eq-ok (progressive_mint_quote p.cap 0 v1) _ h in
    deploy_asset-position s owner sequence _ _ quote.2
apply_kind-position s r owner sequence (deploy_progressive_v2 p) call rules h =
    let quote = >>=-eq-ok (progressive_mint_quote p.cap 0 v2) _ h in
    deploy_asset-position s owner sequence _ _ quote.2
apply_kind-position s r owner sequence (deploy p) call rules h =
    deploy_asset-position s owner sequence _ _ h
apply_kind-position s r owner sequence (inscribe t c) call rules h =
    inscribe_asset-position s r owner sequence t c h
apply_kind-position s r owner sequence (mint asset amount) call rules h =
    let a = >>=-eq-ok (known_asset s asset) _ h in mint_asset-position s owner asset a.0 amount a.2
apply_kind-position s r owner sequence (transfer asset amount to) call rules h =
    let a = >>=-eq-ok (known_asset s asset) _ h in
    transfer_asset-position s owner asset a.0 amount to a.2
apply_kind-position s r owner sequence (offer p) call rules h =
    let a = >>=-eq-ok (known_asset s p.asset) _ h in
    let whole = require_that-eq-ok (whole_inscription a.0 p.amount) inscription_amount _ a.2 in
    lock_offer-position s r owner p call whole.1

pub apply_as-position :
    (s : State) (genesis : ℕ) (r : Receipt) (e : Envelope) (call : Call) (rules : Rules)
    (signer : Option ℕ) {s' : State}
    → apply_as s genesis r e call rules signer ≡ ok s'
    → position s' ≡ position s
apply_as-position s genesis r e call rules none h = cc
apply_as-position s genesis r e call rules (some owner) h =
    let zeroth = require_that-eq-ok (is_id owner) wrong_byte_length _ h in
    let one = require_that-eq-ok (not (owner == zero_id)) zero_sender _ zeroth.1 in
    let two = require_that-eq-ok (e.genesis == genesis) wrong_genesis _ one.1 in
    let three =
      require_that-eq-ok (e.sequence == or_zero (get s.sequences owner) && ltb e.sequence max_u64)
        wrong_sequence _ two.1 in
    let next = >>=-eq-ok (apply_kind s r owner e.sequence e.op call rules) _ three.1 in
    sym (ap position (ok-inj next.2))
    ∙ apply_kind-position s r owner e.sequence e.op call rules next.1

release_as-position :
    (s : State) (k : Pair) (t : Ticket) (x : TicketStatus) {s' : State}
    → release_as s k t x ≡ ok s'
    → position s' ≡ position s
release_as-position s k t locked h =
    let back = >>=-eq-ok (change s t.offer.asset t.seller (plus t.offer.amount)) _ h in
    sym (ap position (ok-inj back.2))
    ∙ change-position s t.offer.asset t.seller (plus t.offer.amount) back.1
release_as-position s k t settled h = sym (ap position (ok-inj h))
release_as-position s k t released h = sym (ap position (ok-inj h))

pub release-position :
    (s : State) (k : Pair) (t : Ticket) {s' : State}
    → release s k t ≡ ok s'
    → position s' ≡ position s
unfolding release
release-position s k t h = release_as-position s k t t.status h

pub settle-position :
    (s : State) (k : Pair) (r : Receipt) (t : Ticket) {s' : State}
    → settle s k r t ≡ ok s'
    → position s' ≡ position s
unfolding settle
settle-position s k r t h =
    let paid = >>=-eq-ok (change s t.offer.asset t.offer.buyer (plus t.offer.amount)) _ h in
    sym (ap position (ok-inj paid.2))
    ∙ change-position s t.offer.asset t.offer.buyer (plus t.offer.amount) paid.1

pub use_right-position :
    (s : State) (r : Receipt) (lot : ProgressiveLot) (a : Asset) (buyer : Option HexId) {s' : State}
    → use_right s r lot a buyer ≡ ok s'
    → position s' ≡ position s
use_right-position s r lot a none h = sym (ap position (ok-inj h))
use_right-position s r lot a (some buyer) h =
    let given =
      >>=-eq-ok
        (change (with_right s r lot.asset a (a.minted + lot.amount)) lot.asset buyer
          (plus lot.amount))
        _ h in
    sym (ap position (ok-inj given.2)) ∙ change-position _ lot.asset buyer (plus lot.amount) given.1
