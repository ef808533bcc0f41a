-- ===== src/Ledger/LotsKept.antt =====
-- Operations of packages/native/src/protocol.ts leave progressive assets alone: these mint only through
-- their native rights.
use qlyphs_wallet.Prelude.{
  ℕ, ◌+◌, Option, none, some, true, false, not, List, leb, ltb, ◌==◌, ◌&&◌, ◌||◌, ◌≡◌, sym, ap,
  subst, ◌∙◌, Bool-cases, inl, inr, Result, ok, ==→eq, >>=-eq-ok, require_that-eq-ok, ok-inj,
}
use qlyphs_wallet.Prelude.Maps.{Entry, number_key, text_key, pair_key, get, set, get-set_other}
use qlyphs_wallet.Refusal.{
  Refusal, wrong_byte_length, zero_sender, wrong_genesis, wrong_sequence,
  inscriptions_cannot_be_minted, progressive_mints_by_right, issuer_only, mint_cap_limit,
  inscription_amount, zero_recipient, inscription_counter, asset_already_exists, symbol_taken,
}
use qlyphs_wallet.Operations.{
  HexId, zero_id, max_u64, Operation, Envelope, Offer, deploy, mint, transfer, offer, inscribe,
  deploy_progressive, deploy_progressive_v2, fee_rate, fee_admin,
}
use qlyphs_wallet.Fees.State.{max_safe, FeeRules, FeeState, is_id}
use qlyphs_wallet.Progressive.Quote.{v1, v2, progressive_mint_quote}
use qlyphs_wallet.Wire.Bytes.{asset_id}
use qlyphs_wallet.Wire.Calls.{Call, call_bytes}
use qlyphs_wallet.Ledger.Data.{
  State, Asset, progressive_profile, first_inscription, AssetDefinition, MintRight, Receipt, Rules,
  or_zero,
}
use qlyphs_wallet.Ledger.Change.{Delta, change, plus, minus}
use qlyphs_wallet.Ledger.Offers.{proposal_of, check_offer, absent, lock_offer}
use qlyphs_wallet.Ledger.Apply.{
  govern_with, known_asset, apply_as, is_inscription, is_open, whole_inscription, deploy_asset,
  mint_asset, transfer_asset, inscribe_asset, deploy_lots, apply_kind, apply_operation,
}
use qlyphs_wallet.Ledger.Supply.{change_lem}
use qlyphs_wallet.Ledger.Conservation.{absent-none, known_asset-ok}

-- A progressive asset of the first map is in the second as it was.
abbrev pub LotsKept : (m m' : List (Entry HexId Asset)) → Type 0
LotsKept m m' =
    (id : HexId) (a : Asset)
    → get m id ≡ some a
    → absent (progressive_profile a.definition.policy) ≡ false
    → get m' id ≡ some a

pub change_assets :
    (s : State) (asset owner : HexId) (d : Delta) {s' : State}
    → change s asset owner d ≡ ok s'
    → s'.assets ≡ s.assets
change_assets s asset owner d h = ap (λ z. z.assets) (change_lem s asset owner d h).1

set-LotsKept :
    (m : List (Entry HexId Asset)) (k : HexId) (new : Asset) (held : Option Asset)
    → get m k ≡ held
    → ((a : Asset) → held ≡ some a → absent (progressive_profile a.definition.policy) ≡ true)
    → LotsKept m (set m k new)
set-LotsKept m k new held there plain id a found lots = elim (Bool-cases (k == id)) [
  | inl e ↦
      let clash : true ≡ false =
        sym (plain a (sym there ∙ ap (get m) (==→eq k id e) ∙ found)) ∙ lots in
      cc
  | inr e ↦ get-set_other m k new id e ∙ found
]

fresh-LotsKept :
    (m : List (Entry HexId Asset)) (k : HexId) (new : Asset)
    → get m k ≡ none
    → LotsKept m (set m k new)
fresh-LotsKept m k new there = set-LotsKept m k new none there (λ a e. cc)

deploy_asset-LotsKept :
    (s : State) (owner sequence : ℕ) (d : AssetDefinition) (right : MintRight) {s' : State}
    → deploy_asset s owner sequence d right ≡ ok s'
    → LotsKept s.assets s'.assets
unfolding deploy_asset
deploy_asset-LotsKept s owner sequence d right {s'} h =
    let found = >>=-eq-ok (asset_id owner sequence) _ h in
    let fresh = require_that-eq-ok (absent (get s.assets found.0)) asset_already_exists _ found.2 in
    let free = require_that-eq-ok (absent (get s.symbols d.symbol)) symbol_taken _ fresh.1 in
    subst (λ z. LotsKept s.assets z.assets) (ok-inj free.1)
      (fresh-LotsKept s.assets found.0 _ (absent-none (get s.assets found.0) fresh.0))

mint_asset-LotsKept :
    (s : State) (owner asset : ℕ) (a : Asset) (amount : ℕ) {s' : State}
    → get s.assets asset ≡ some a
    → mint_asset s owner asset a amount ≡ ok s'
    → LotsKept s.assets s'.assets
unfolding mint_asset
mint_asset-LotsKept s owner asset a amount {s'} there h =
    let one =
      require_that-eq-ok (not (is_inscription a.definition.policy)) inscriptions_cannot_be_minted _
        h in
    let two =
      require_that-eq-ok (absent (progressive_profile a.definition.policy))
        progressive_mints_by_right _ one.1 in
    let three =
      require_that-eq-ok (is_open a.definition.policy || a.creator == owner) issuer_only _ two.1 in
    let four =
      require_that-eq-ok (leb amount a.definition.limit && leb (a.minted + amount) a.definition.cap)
        mint_cap_limit _ three.1 in
    subst (LotsKept s.assets) (sym (change_assets _ asset owner (plus amount) four.1)) (
      set-LotsKept s.assets asset (record a { minted = a.minted + amount }) (some a) there
        (λ b e.
          subst (λ o. absent (progressive_profile o.definition.policy) ≡ true) (some_eq e) two.0))
  where
    some_eq : {x y : Asset} → ◌≡◌ {A = Option Asset} (some x) (some y) → x ≡ y
    some_eq h = cc

transfer_asset-assets :
    (s : State) (owner asset : ℕ) (a : Asset) (amount to : ℕ) {s' : State}
    → transfer_asset s owner asset a amount to ≡ ok s'
    → s'.assets ≡ s.assets
unfolding transfer_asset
transfer_asset-assets s owner asset a amount to h =
    let one = require_that-eq-ok (whole_inscription a amount) inscription_amount _ h in
    let two = require_that-eq-ok (not (to == zero_id)) zero_recipient _ one.1 in
    let sent = >>=-eq-ok (change s asset owner (minus amount)) _ two.1 in
    change_assets sent.0 asset to (plus amount) sent.2
    ∙ change_assets s asset owner (minus amount) sent.1

inscribe_asset-LotsKept :
    (s : State) (r : Receipt) (owner sequence : ℕ) (t c : List ℕ) {s' : State}
    → inscribe_asset s r owner sequence t c ≡ ok s'
    → LotsKept s.assets s'.assets
unfolding inscribe_asset
inscribe_asset-LotsKept s r owner sequence t c {s'} h =
    let found = >>=-eq-ok (asset_id owner sequence) _ h in
    let fresh = require_that-eq-ok (absent (get s.assets found.0)) asset_already_exists _ found.2 in
    let counted =
      require_that-eq-ok
        (leb s.next_inscription max_safe && leb first_inscription s.next_inscription)
        inscription_counter _ fresh.1 in
    let given = >>=-eq-ok (change _ found.0 owner (plus 1)) _ counted.1 in
    subst (λ z. LotsKept s.assets z.assets) (ok-inj given.2)
      (subst (LotsKept s.assets) (sym (change_assets _ found.0 owner (plus 1) given.1))
        (fresh-LotsKept s.assets found.0 _ (absent-none (get s.assets found.0) fresh.0)))

lock_offer-assets :
    (s : State) (r : Receipt) (owner : ℕ) (p : Offer) (c : Call) {s' : State}
    → lock_offer s r owner p c ≡ ok s'
    → s'.assets ≡ s.assets
unfolding lock_offer
lock_offer-assets s r owner p c h =
    let call = >>=-eq-ok (proposal_of c) _ h in
    let number = >>=-eq-ok (check_offer s r owner p call.0) _ call.2 in
    let paid = >>=-eq-ok (change s p.asset owner (minus p.amount)) _ number.2 in
    let bytes = >>=-eq-ok (call_bytes call.0.call) _ paid.2 in
    sym (ap (λ z. z.assets) (ok-inj bytes.2))
    ∙ change_assets s p.asset owner (minus p.amount) paid.1

govern-assets :
    (s : State) (act : FeeRules → FeeState → Result Refusal FeeState) (f : Option FeeState)
    (schedule : Option FeeRules) {s' : State}
    → govern_with s act f schedule ≡ ok s'
    → s'.assets ≡ s.assets
govern-assets s act none schedule h = cc
govern-assets s act (some f) none h = cc
govern-assets s act (some f) (some schedule) h =
    let next = >>=-eq-ok (act schedule f) _ h in sym (ap (λ z. z.assets) (ok-inj next.2))

same-LotsKept :
    (m : List (Entry HexId Asset)) {m' : List (Entry HexId Asset)} → m' ≡ m → LotsKept m m'
same-LotsKept m e = subst (LotsKept m) (sym e) (λ id a found lots. found)

apply_kind-LotsKept :
    (s : State) (r : Receipt) (owner sequence : ℕ) (op : Operation) (call : Call) (rules : Rules)
    {s' : State}
    → apply_kind s r owner sequence op call rules ≡ ok s'
    → LotsKept s.assets s'.assets
unfolding apply_kind deploy_lots
apply_kind-LotsKept s r owner sequence (fee_rate e v) call rules h =
    same-LotsKept s.assets (govern-assets s _ s.fees rules.fee_schedule h)
apply_kind-LotsKept s r owner sequence (fee_admin p) call rules h =
    same-LotsKept s.assets (govern-assets s _ s.fees rules.fee_schedule h)
apply_kind-LotsKept s r owner sequence (deploy_progressive p) call rules h =
    let quote = >>=-eq-ok (progressive_mint_quote p.cap 0 v1) _ h in
    deploy_asset-LotsKept s owner sequence _ _ quote.2
apply_kind-LotsKept s r owner sequence (deploy_progressive_v2 p) call rules h =
    let quote = >>=-eq-ok (progressive_mint_quote p.cap 0 v2) _ h in
    deploy_asset-LotsKept s owner sequence _ _ quote.2
apply_kind-LotsKept s r owner sequence (deploy p) call rules h =
    deploy_asset-LotsKept s owner sequence _ _ h
apply_kind-LotsKept s r owner sequence (inscribe t c) call rules h =
    inscribe_asset-LotsKept s r owner sequence t c h
apply_kind-LotsKept s r owner sequence (mint asset amount) call rules h =
    let a = >>=-eq-ok (known_asset s asset) _ h in
    mint_asset-LotsKept s owner asset a.0 amount (known_asset-ok (get s.assets asset) a.1) a.2
apply_kind-LotsKept s r owner sequence (transfer asset amount to) call rules h =
    let a = >>=-eq-ok (known_asset s asset) _ h in
    same-LotsKept s.assets (transfer_asset-assets s owner asset a.0 amount to a.2)
apply_kind-LotsKept s r owner sequence (offer p) call rules h =
    let a = >>=-eq-ok (known_asset s p.asset) _ h in
    let whole = require_that-eq-ok (whole_inscription a.0 p.amount) inscription_amount _ a.2 in
    same-LotsKept s.assets (lock_offer-assets s r owner p call whole.1)

apply_as-LotsKept :
    (s : State) (genesis : ℕ) (r : Receipt) (e : Envelope) (call : Call) (rules : Rules)
    (signer : Option ℕ) {s' : State}
    → apply_as s genesis r e call rules signer ≡ ok s'
    → LotsKept s.assets s'.assets
apply_as-LotsKept s genesis r e call rules none h = cc
apply_as-LotsKept s genesis r e call rules (some owner) h =
    let zeroth = require_that-eq-ok (is_id owner) wrong_byte_length _ h in
    let one = require_that-eq-ok (not (owner == zero_id)) zero_sender _ zeroth.1 in
    let two = require_that-eq-ok (e.genesis == genesis) wrong_genesis _ one.1 in
    let three =
      require_that-eq-ok (e.sequence == or_zero (get s.sequences owner) && ltb e.sequence max_u64)
        wrong_sequence _ two.1 in
    let next = >>=-eq-ok (apply_kind s r owner e.sequence e.op call rules) _ three.1 in
    subst (λ z. LotsKept s.assets z.assets) (ok-inj next.2)
      (apply_kind-LotsKept s r owner e.sequence e.op call rules next.1)

-- An applied operation of any kind leaves every asset with a progressive policy exactly as it was: its
-- definition, what is minted of it and its right.
pub apply_operation-LotsKept :
    (s : State) (genesis : ℕ) (r : Receipt) (e : Envelope) (call : Call) (rules : Rules)
    {s' : State}
    → apply_operation s genesis r e call rules ≡ ok s'
    → LotsKept s.assets s'.assets
unfolding apply_operation
apply_operation-LotsKept s genesis r e call rules h =
    apply_as-LotsKept s genesis r e call rules r.signer h
