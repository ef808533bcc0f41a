-- ===== src/Ledger/Conservation.antt =====
-- Every operation of packages/native/src/protocol.ts conserves the supply of every asset.
use qlyphs_wallet.Prelude.{
  ℕ, ◌+◌, ◌≤◌, Option, none, some, Bool, true, false, not, List, leb, ◌==◌, if◌then◌else◌, ◌≡◌,
  refl, sym, ap, subst, ◌∙◌, arith, Bool-cases, inl, inr, Result, ok, ==→eq, >>=-eq-ok,
  require_that-eq-ok, ok-inj, ◌&&◌, ◌||◌, &&-true, leb→le, ltb,
}
use qlyphs_wallet.Prelude.Maps.{Pair, pair_key, number_key, text_key, get, set, part_of}
use qlyphs_wallet.Refusal.{
  Refusal, wrong_byte_length, zero_sender, wrong_genesis, wrong_sequence, invalid_expiry,
  invalid_counterparties, no_sale_fee, not_bilateral_multisig, wrong_proposal_origin, ticket_reused,
  inscriptions_cannot_be_minted, progressive_mints_by_right, issuer_only, mint_cap_limit,
  inscription_amount, zero_recipient, inscription_counter, asset_already_exists, symbol_taken,
}
use qlyphs_wallet.Operations.{
  HexId, zero_id, max_u64, Operation, Envelope, Offer, deploy, mint, transfer, offer, inscribe,
  deploy_progressive, deploy_progressive_v2, fee_rate, fee_admin,
}
use qlyphs_wallet.Fees.State.{max_safe, FeeRules, FeeState, is_id}
use qlyphs_wallet.Progressive.Quote.{v1, v2, progressive_mint_quote}
use qlyphs_wallet.Wire.Bytes.{asset_id}
use qlyphs_wallet.Wire.Calls.{Call, call_bytes}
use qlyphs_wallet.Ledger.Data.{
  State, Asset, ticket_key, progressive_profile, inscription_definition, first_inscription,
  no_right, AssetDefinition, MintRight, Receipt, Rules, Ticket, TicketStatus, locked, settled,
  released, or_zero,
}
use qlyphs_wallet.Ledger.Change.{with_status, release_as, change, release, plus, minus}
use qlyphs_wallet.Ledger.Offers.{
  proposal_of, Proposal, check_offer, the_created, new_ticket, absent, lock_offer,
}
use qlyphs_wallet.Ledger.Apply.{
  govern_with, known, known_asset, apply_as, is_inscription, is_open, whole_inscription,
  deploy_asset, mint_asset, transfer_asset, inscribe_asset, deploy_lots, apply_kind,
  apply_operation,
}
use qlyphs_wallet.Ledger.Supply.{
  is_locked, Sound, locked_share, held, locked_in, minted_of, minted_amount, change_lem,
  minted_part, within_part, locked_part,
}

pub absent-none {ℓ} : {V : Type ℓ} (o : Option V) → absent o ≡ true → o ≡ none
absent-none none h = refl
absent-none (some v) h = ground arith

unminted :
    (s : State) (id x : HexId) (a : Asset)
    → get s.assets id ≡ none
    → a.minted ≡ 0
    → (if id == x then a.minted else minted_amount (get s.assets x))
      ≡ minted_amount (get s.assets x)
unminted s id x a fresh zero_minted = elim (Bool-cases (id == x)) [
  | inl h ↦ rw (h, zero_minted, sym (==→eq id x h), fresh)
  | inr h ↦ rw h
]

-- A new asset with nothing minted adds nothing to any supply.
fresh-Sound :
    (s : State) (id : HexId) (a : Asset) (symbol : List ℕ)
    → get s.assets id ≡ none
    → a.minted ≡ 0
    → Sound s
    → Sound (record s { symbols = set s.symbols symbol id; assets = set s.assets id a })
unfolding held locked_in minted_of
fresh-Sound s id a symbol fresh zero_minted sound = record {
  conserved = λ x.
      sound.conserved x ∙ sym (minted_part s.assets id x a ∙ unminted s id x a fresh zero_minted);
  capped = λ x. within_part s.assets id x a (omega (arith, zero_minted)) (sound.capped x);
}

deploy_asset-Sound :
    (s : State) (owner sequence : ℕ) (d : AssetDefinition) (right : MintRight) {s' : State}
    → Sound s
    → deploy_asset s owner sequence d right ≡ ok s'
    → Sound s'
unfolding deploy_asset
deploy_asset-Sound s owner sequence d right {s'} sound h =
    let found = >>=-eq-ok (asset_id owner sequence) _ h in
    let id = found.0 in
    let fresh = require_that-eq-ok (absent (get s.assets id)) asset_already_exists _ found.2 in
    let free = require_that-eq-ok (absent (get s.symbols d.symbol)) symbol_taken _ fresh.1 in
    subst Sound (ok-inj free.1) (
      fresh-Sound s id (record { creator = owner; definition = d; minted = 0; right = right })
        d.symbol (absent-none (get s.assets id) fresh.0) refl sound)

book_sum :
    (c : Bool) (sum held' locked' minted' total n m : ℕ)
    → sum + 0 ≡ held' + (if c then n else 0)
    → held' + locked' ≡ minted'
    → total ≡ (if c then m else minted')
    → (c ≡ true → minted' + n ≡ m)
    → sum + locked' ≡ total
book_sum true sum held' locked' minted' total n m h k t e = omega (arith, e refl)
book_sum false sum held' locked' minted' total n m h k t e = omega arith

-- Minting books its amount on the asset and on one account.
pub booked-Sound :
    (s : State) (asset owner n : ℕ) (a : Asset) {s' : State}
    → minted_amount (get s.assets asset) + n ≡ a.minted
    → a.minted ≤ a.definition.cap
    → Sound s
    → change (record s { assets = set s.assets asset a }) asset owner (plus n) ≡ ok s'
    → Sound s'
unfolding held locked_in minted_of
booked-Sound s asset owner n a minted cap_ok sound h =
    let done = change_lem (record s { assets = set s.assets asset a }) asset owner (plus n) h in
    subst Sound (sym done.1) (record {
      conserved = λ x.
          book_sum (asset == x) _ _ _ _ _ _ _ (done.2 x) (sound.conserved x)
            (minted_part s.assets asset x a)
            (λ e.
              subst (λ y. minted_amount (get s.assets y) + n ≡ a.minted) (==→eq asset x e) minted);
      capped = λ x. within_part s.assets asset x a cap_ok (sound.capped x);
    })

pub mint_asset-Sound :
    (s : State) (owner asset : ℕ) (a : Asset) (amount : ℕ) {s' : State}
    → get s.assets asset ≡ some a
    → Sound s
    → mint_asset s owner asset a amount ≡ ok s'
    → Sound s'
unfolding mint_asset
mint_asset-Sound s owner asset a amount there sound h =
    let one =
      require_that-eq-ok (not (is_inscription a.definition.policy)) inscriptions_cannot_be_minted _
        h in
    let two =
      require_that-eq-ok (absent (progressive_profile a.definition.policy))
        progressive_mints_by_right _ one.1 in
    let three =
      require_that-eq-ok (is_open a.definition.policy || a.creator == owner) issuer_only _ two.1 in
    let four =
      require_that-eq-ok (leb amount a.definition.limit && leb (a.minted + amount) a.definition.cap)
        mint_cap_limit _ three.1 in
    let both =
      &&-true (leb amount a.definition.limit) (leb (a.minted + amount) a.definition.cap) four.0 in
    booked-Sound s asset owner amount (record a { minted = a.minted + amount })
      (ap (λ o. minted_amount o + amount) there)
      (leb→le (a.minted + amount) a.definition.cap both.1) sound four.1

-- What leaves one account and reaches another.
moved-Sound :
    (s sent : State) (asset owner to n : ℕ) {s' : State}
    → change s asset owner (minus n) ≡ ok sent
    → change sent asset to (plus n) ≡ ok s'
    → Sound s
    → Sound s'
unfolding held locked_in minted_of
moved-Sound s sent asset owner to n {s'} h1 h2 sound =
    let out = change_lem s asset owner (minus n) h1 in
    let into =
      change_lem (record s { balances = out.0 }) asset to (plus n)
        (subst (λ z. change z asset to (plus n) ≡ ok s') out.1 h2) in
    subst Sound (sym into.1) (record {
      conserved = λ x. omega (arith, out.2 x, into.2 x, sound.conserved x);
      capped = sound.capped;
    })

pub transfer_asset-Sound :
    (s : State) (owner asset : ℕ) (a : Asset) (amount to : ℕ) {s' : State}
    → Sound s
    → transfer_asset s owner asset a amount to ≡ ok s'
    → Sound s'
unfolding transfer_asset
transfer_asset-Sound s owner asset a amount to sound h =
    let one = require_that-eq-ok (whole_inscription a amount) inscription_amount _ h in
    let two = require_that-eq-ok (not (to == zero_id)) zero_recipient _ one.1 in
    let sent = >>=-eq-ok (change s asset owner (minus amount)) _ two.1 in
    moved-Sound s sent.0 asset owner to amount sent.1 sent.2 sound

pub inscribe_asset-Sound :
    (s : State) (r : Receipt) (owner sequence : ℕ) (t c : List ℕ) {s' : State}
    → Sound s
    → inscribe_asset s r owner sequence t c ≡ ok s'
    → Sound s'
unfolding inscribe_asset held locked_in minted_of
inscribe_asset-Sound s r owner sequence t c sound h =
    let found = >>=-eq-ok (asset_id owner sequence) _ h in
    let id = found.0 in
    let fresh = require_that-eq-ok (absent (get s.assets id)) asset_already_exists _ found.2 in
    let counted =
      require_that-eq-ok
        (leb s.next_inscription max_safe && leb first_inscription s.next_inscription)
        inscription_counter _ fresh.1 in
    let asset : Asset = record {
      creator = owner;
      definition = inscription_definition;
      minted = 1;
      right = no_right;
    } in
    let given =
      >>=-eq-ok (change (record s { assets = set s.assets id asset }) id owner (plus 1)) _
        counted.1 in
    let booked =
      booked-Sound s id owner 1 asset
        (ap (λ o. minted_amount o + 1) (absent-none (get s.assets id) fresh.0)) (omega arith) sound
        given.1 in
    subst Sound (ok-inj given.2) (record { conserved = booked.conserved; capped = booked.capped })

locked_whole :
    (x : ℕ) (k : Pair) (t : Ticket)
    → t.status ≡ locked
    → locked_share x k t ≡ (if t.offer.asset == x then t.offer.amount else 0)
locked_whole x k t h = rw h refl

locked_all :
    (x : ℕ) (k : Pair) (t : Ticket)
    → is_locked t.status ≡ true
    → locked_share x k t ≡ (if t.offer.asset == x then t.offer.amount else 0)
locked_all x k t h = rw h refl

locked_nothing :
    (x : ℕ) (k : Pair) (t : Ticket) → is_locked t.status ≡ false → locked_share x k t ≡ 0
locked_nothing x k t h = ground arith

check_offer-fresh :
    (s : State) (r : Receipt) (owner : ℕ) (p : Offer) (call : Proposal) {n : ℕ}
    → check_offer s r owner p call ≡ ok n
    → get s.tickets (ticket_key call.multisig n) ≡ none
unfolding check_offer
check_offer-fresh s r owner p call {n} h =
    let one = require_that-eq-ok _ invalid_expiry _ h in
    let two = require_that-eq-ok _ invalid_counterparties _ one.1 in
    let three = require_that-eq-ok _ no_sale_fee _ two.1 in
    let four = require_that-eq-ok _ not_bilateral_multisig _ three.1 in
    let ev = >>=-eq-ok (the_created r.events) _ four.1 in
    let five = require_that-eq-ok _ wrong_proposal_origin _ ev.2 in
    let six = require_that-eq-ok _ ticket_reused _ five.1 in
    subst (λ m. get s.tickets (ticket_key call.multisig m) ≡ none) (ok-inj six.1)
      (absent-none (get s.tickets (ticket_key call.multisig ev.0.proposal)) six.0)

-- What an account gives into a new open ticket.
locked-Sound :
    (s paid : State) (owner : ℕ) (k : Pair) (t : Ticket)
    → change s t.offer.asset owner (minus t.offer.amount) ≡ ok paid
    → get s.tickets k ≡ none
    → t.status ≡ locked
    → Sound s
    → Sound (record paid { tickets = set paid.tickets k t })
unfolding held locked_in minted_of
locked-Sound s paid owner k t h fresh open_ticket sound =
    let out = change_lem s t.offer.asset owner (minus t.offer.amount) h in
    subst (λ z. Sound (record z { tickets = set z.tickets k t })) (sym out.1)
      (record {
        conserved = λ x. omega (
          arith,
          out.2 x,
          sound.conserved x,
          locked_part s.tickets k t x,
          ap (part_of (locked_share x) k) fresh,
          locked_whole x k t open_ticket,
        );
        capped = sound.capped;
      })

pub lock_offer-Sound :
    (s : State) (r : Receipt) (owner : ℕ) (p : Offer) (c : Call) {s' : State}
    → Sound s
    → lock_offer s r owner p c ≡ ok s'
    → Sound s'
unfolding lock_offer
lock_offer-Sound s r owner p c sound h =
    let call = >>=-eq-ok (proposal_of c) _ h in
    let number = >>=-eq-ok (check_offer s r owner p call.0) _ call.2 in
    let paid = >>=-eq-ok (change s p.asset owner (minus p.amount)) _ number.2 in
    let bytes = >>=-eq-ok (call_bytes call.0.call) _ paid.2 in
    subst Sound (ok-inj bytes.2) (
      locked-Sound s paid.0 owner (ticket_key call.0.multisig number.0)
        (new_ticket s owner p call.0.multisig number.0 bytes.0) paid.1
        (check_offer-fresh s r owner p call.0 number.1) refl sound)

-- What an open ticket gives to an account when it is closed.
pub unlocked-Sound :
    (s back : State) (to : ℕ) (k : Pair) (t : Ticket) (status : TicketStatus)
    (settlement : Option ℕ)
    → change s t.offer.asset to (plus t.offer.amount) ≡ ok back
    → get s.tickets k ≡ some t
    → is_locked t.status ≡ true
    → is_locked status ≡ false
    → Sound s
    → Sound (with_status back k t status settlement)
unfolding held locked_in minted_of
unlocked-Sound s back to k t status settlement h there open_ticket shut sound =
    let into = change_lem s t.offer.asset to (plus t.offer.amount) h in
    subst (λ z. Sound (with_status z k t status settlement)) (sym into.1)
      (record {
        conserved = λ x. omega (
          arith,
          into.2 x,
          sound.conserved x,
          locked_part s.tickets k (record t { status = status; settlement = settlement }) x,
          ap (part_of (locked_share x) k) there,
          locked_all x k t open_ticket,
          locked_nothing x k (record t { status = status; settlement = settlement }) shut,
        );
        capped = sound.capped;
      })

release_as-Sound :
    (s : State) (k : Pair) (t : Ticket) (x : TicketStatus) {s' : State}
    → t.status ≡ x
    → get s.tickets k ≡ some t
    → Sound s
    → release_as s k t x ≡ ok s'
    → Sound s'
release_as-Sound s k t locked e there sound h =
    let back = >>=-eq-ok (change s t.offer.asset t.seller (plus t.offer.amount)) _ h in
    subst Sound (ok-inj back.2) (
      unlocked-Sound s back.0 t.seller k t released t.settlement back.1 there (ap is_locked e) refl
        sound)
release_as-Sound s k t settled e there sound h = subst Sound (ok-inj h) sound
release_as-Sound s k t released e there sound h = subst Sound (ok-inj h) sound

pub release-Sound :
    (s : State) (k : Pair) (t : Ticket) {s' : State}
    → get s.tickets k ≡ some t
    → Sound s
    → release s k t ≡ ok s'
    → Sound s'
unfolding release
release-Sound s k t there sound h = release_as-Sound s k t t.status refl there sound h

govern-Sound :
    (s : State) (rules : Rules) (act : FeeRules → FeeState → Result Refusal FeeState)
    (f : Option FeeState) (schedule : Option FeeRules) {s' : State}
    → Sound s
    → govern_with s act f schedule ≡ ok s'
    → Sound s'
unfolding held locked_in minted_of
govern-Sound s rules act none schedule sound h = cc
govern-Sound s rules act (some f) none sound h = cc
govern-Sound s rules act (some f) (some schedule) sound h =
    let next = >>=-eq-ok (act schedule f) _ h in
    subst Sound (ok-inj next.2) (record { conserved = sound.conserved; capped = sound.capped })

pub known_asset-ok : (o : Option Asset) {a : Asset} → known o ≡ ok a → o ≡ some a
known_asset-ok none h = cc
known_asset-ok (some a) h = ap some (ok-inj h)

pub apply_kind-Sound :
    (s : State) (r : Receipt) (owner sequence : ℕ) (op : Operation) (call : Call) (rules : Rules)
    {s' : State}
    → Sound s
    → apply_kind s r owner sequence op call rules ≡ ok s'
    → Sound s'
unfolding apply_kind deploy_lots
apply_kind-Sound s r owner sequence (fee_rate e v) call rules sound h =
    govern-Sound s rules _ s.fees rules.fee_schedule sound h
apply_kind-Sound s r owner sequence (fee_admin p) call rules sound h =
    govern-Sound s rules _ s.fees rules.fee_schedule sound h
apply_kind-Sound s r owner sequence (deploy_progressive p) call rules sound h =
    let quote = >>=-eq-ok (progressive_mint_quote p.cap 0 v1) _ h in
    deploy_asset-Sound s owner sequence _ _ sound quote.2
apply_kind-Sound s r owner sequence (deploy_progressive_v2 p) call rules sound h =
    let quote = >>=-eq-ok (progressive_mint_quote p.cap 0 v2) _ h in
    deploy_asset-Sound s owner sequence _ _ sound quote.2
apply_kind-Sound s r owner sequence (deploy p) call rules sound h =
    deploy_asset-Sound s owner sequence _ _ sound h
apply_kind-Sound s r owner sequence (inscribe t c) call rules sound h =
    inscribe_asset-Sound s r owner sequence t c sound h
apply_kind-Sound s r owner sequence (mint asset amount) call rules sound h =
    let a = >>=-eq-ok (known_asset s asset) _ h in
    mint_asset-Sound s owner asset a.0 amount (known_asset-ok (get s.assets asset) a.1) sound a.2
apply_kind-Sound s r owner sequence (transfer asset amount to) call rules sound h =
    let a = >>=-eq-ok (known_asset s asset) _ h in
    transfer_asset-Sound s owner asset a.0 amount to sound a.2
apply_kind-Sound s r owner sequence (offer p) call rules sound h =
    let a = >>=-eq-ok (known_asset s p.asset) _ h in
    let whole = require_that-eq-ok (whole_inscription a.0 p.amount) inscription_amount _ a.2 in
    lock_offer-Sound s r owner p call sound whole.1

apply_as-Sound :
    (s : State) (genesis : ℕ) (r : Receipt) (e : Envelope) (call : Call) (rules : Rules)
    (signer : Option ℕ) {s' : State}
    → Sound s
    → apply_as s genesis r e call rules signer ≡ ok s'
    → Sound s'
unfolding held locked_in minted_of
apply_as-Sound s genesis r e call rules none sound h = cc
apply_as-Sound s genesis r e call rules (some owner) sound h =
    let zeroth = require_that-eq-ok (is_id owner) wrong_byte_length _ h in
    let one = require_that-eq-ok (not (owner == zero_id)) zero_sender _ zeroth.1 in
    let two = require_that-eq-ok (e.genesis == genesis) wrong_genesis _ one.1 in
    let three =
      require_that-eq-ok (e.sequence == or_zero (get s.sequences owner) && ltb e.sequence max_u64)
        wrong_sequence _ two.1 in
    let next = >>=-eq-ok (apply_kind s r owner e.sequence e.op call rules) _ three.1 in
    let kept = apply_kind-Sound s r owner e.sequence e.op call rules sound next.1 in
    subst Sound (ok-inj next.2) (record { conserved = kept.conserved; capped = kept.capped })

-- Every operation that is applied, of any kind, in any context, keeps every asset's supply conserved
-- and within its cap: if what accounts hold and open tickets lock of each asset was exactly what was
-- minted of it, and at most its cap, then so it is afterwards.
pub apply_operation-Sound :
    (s : State) (genesis : ℕ) (r : Receipt) (e : Envelope) (call : Call) (rules : Rules)
    {s' : State}
    → Sound s
    → apply_operation s genesis r e call rules ≡ ok s'
    → Sound s'
unfolding apply_operation
apply_operation-Sound s genesis r e call rules sound h =
    apply_as-Sound s genesis r e call rules r.signer sound h
