-- ===== src/Ledger/LotRoom.antt =====
-- The rights that a receipt of packages/native/src/protocol.ts uses: each is for a lot that its asset
-- has room for.
use qlyphs_wallet.Prelude.{
  ℕ, ◌+◌, ◌*◌, ◌/◌, ◌%◌, ◌≤◌, ◌<◌, ◌>>=◌, Option, none, some, true, false, not, List, [], ◌∷◌, ◌++◌,
  leb, ltb, every, any_of, ◌==◌, ◌&&◌, if◌then◌else◌, ◌≡◌, refl, sym, ap, subst, ◌∙◌, arith,
  Bool-cases, inl, inr, Result, ok, ==→eq, ltb→lt, >>=-eq-ok, require_that-eq-ok, ok-inj, &&-true,
}
use qlyphs_wallet.Prelude.Maps.{Entry, Pair, number_key, text_key, pair_key, get}
use qlyphs_wallet.Refusal.{
  Refusal, invalid_supply, not_1000_equal_lots, invalid_minted_amount, not_whole_lots,
  multisig_event_incomplete, duplicate_right_use, duplicate_multisig, wrong_byte_length,
}
use qlyphs_wallet.Operations.{HexId, max_u128, qlyphs_fee_account}
use qlyphs_wallet.Fees.State.{is_id}
use qlyphs_wallet.Progressive.Quote.{
  ProgressiveProfile, progressive_mint_quote, ProgressiveMintQuote, next_lot_fee, tier_fee,
}
use qlyphs_wallet.Progressive.Ticket.{mint_ticket, settlement_call}
use qlyphs_wallet.Ledger.Data.{
  State, Asset, MintRight, no_right, exhausted, anchored, progressive_profile, NativeEvent,
  multisig_event, created_event, approved_event, closed_event, paid_event, remarked_event,
  batch_completed_event,
}
use qlyphs_wallet.Ledger.Offers.{absent}
use qlyphs_wallet.Ledger.Standing.{position}
use qlyphs_wallet.Ledger.LotsKept.{LotsKept}
use qlyphs_wallet.Ledger.Rights.{
  ProgressiveLot, lot_of, lot_under, lot_found, progressive_lot, used_of, with_nonce, used_right,
  nonce_known, creator_known,
}
use qlyphs_wallet.Ledger.Receipts.{Tracked, right_used, track, track_multisigs}

-- The lot of a right that can be used: its asset is progressive and has room for it.
abbrev pub LotOpen : List (Entry HexId Asset) → ProgressiveLot → Type 0
LotOpen m lot =
    (a : Asset) × (get m lot.asset ≡ some a)
    × (absent (progressive_profile a.definition.policy) ≡ false)
    × (a.minted + lot.amount ≤ a.definition.cap)

abbrev pub AllOpen : List (Entry HexId Asset) → List ProgressiveLot → Type 0
AllOpen m [] = 0 ≤ 0
AllOpen m (lot ∷ lots) = LotOpen m lot × AllOpen m lots

pub AllOpen-append :
    (m : List (Entry HexId Asset)) (used : List ProgressiveLot) (lot : ProgressiveLot)
    → AllOpen m used
    → LotOpen m lot
    → AllOpen m (used ++ (lot ∷ []))
AllOpen-append m [] lot all new = (new, omega arith)
AllOpen-append m (u ∷ used) lot all new = (all.0, AllOpen-append m used lot all.1 new)

pub AllOpen-LotsKept :
    (m m' : List (Entry HexId Asset)) (used : List ProgressiveLot)
    → LotsKept m m'
    → AllOpen m used
    → AllOpen m' used
AllOpen-LotsKept m m' [] kept all = all
AllOpen-LotsKept m m' (lot ∷ used) kept all = (
  (all.0.0, kept lot.asset all.0.0 all.0.1 all.0.2, all.0.2, all.0.3),
  AllOpen-LotsKept m m' used kept all.1,
)

fits : (minted k size : ℕ) → minted ≡ k * size → k < 1000 → minted + size ≤ 1000 * size
fits minted k size em h = grind arith

whole_part : (m n : ℕ) → 0 < n → m % n ≡ 0 → m ≡ m / n * n
whole_part m n h e = grind arith

priced : (p : ProgressiveProfile) (k : ℕ) {f : ℕ} → next_lot_fee p k ≡ ok (some f) → k < 1000
priced p k {f} h = elim (Bool-cases (ltb k 1000)) [
  | inl e ↦ ltb→lt k 1000 e
  | inr e ↦
      let none_left : ◌≡◌ {A = Result Refusal (Option ℕ)} (ok none) (ok (some f)) =
        subst
          (λ b.
            (if b then (tier_fee p (k / 200) >>= λ fee. ok (some fee)) else ok none) ≡ ok (some f))
          e h in
      cc
]

quote-fits :
    (cap minted : ℕ) (p : ProgressiveProfile) {q : ProgressiveMintQuote} {f : ℕ}
    → progressive_mint_quote cap minted p ≡ ok q
    → q.next_fee ≡ some f
    → minted + q.lot_size ≤ cap
unfolding progressive_mint_quote
quote-fits cap minted p {q} {f} h fee =
    let one = require_that-eq-ok (ltb 0 cap && leb cap max_u128) invalid_supply _ h in
    let two = require_that-eq-ok (cap % 1000 == 0) not_1000_equal_lots _ one.1 in
    let three = require_that-eq-ok (leb minted cap) invalid_minted_amount _ two.1 in
    let size = cap / 1000 in
    let four = require_that-eq-ok (minted % size == 0) not_whole_lots _ three.1 in
    let next = >>=-eq-ok (next_lot_fee p (minted / size)) _ four.1 in
    let positive = ltb→lt 0 cap (&&-true (ltb 0 cap) (leb cap max_u128) one.0).0 in
    let lots = ==→eq (cap % 1000) 0 two.0 in
    let whole : cap ≡ 1000 * size = omega (arith, lots) in
    let some_size : 0 < size = omega (arith, lots, positive) in
    let below =
      priced p (minted / size) (next.1 ∙ ap ok (ap (λ x. x.next_fee) (ok-inj next.2) ∙ fee)) in
    subst (λ x. minted + x.lot_size ≤ cap) (ok-inj next.2)
      (subst (λ c. minted + size ≤ c) (sym whole)
        (fits minted (minted / size) size
          (whole_part minted size some_size (==→eq (minted % size) 0 four.0)) below))

lot_of-LotOpen :
    (genesis id : HexId) (m : List (Entry HexId Asset)) (a : Asset) (p : ProgressiveProfile)
    (q : ProgressiveMintQuote) (fee : Option ℕ) (right : MintRight) {lot : ProgressiveLot}
    → get m id ≡ some a
    → absent (progressive_profile a.definition.policy) ≡ false
    → ((f : ℕ) → fee ≡ some f → a.minted + q.lot_size ≤ a.definition.cap)
    → lot_of genesis id p q fee right ≡ ok lot
    → LotOpen m lot
lot_of-LotOpen genesis id m a p q none right there lots room h = cc
lot_of-LotOpen genesis id m a p q (some f) no_right there lots room h = cc
lot_of-LotOpen genesis id m a p q (some f) exhausted there lots room h = cc
lot_of-LotOpen genesis id m a p q (some f) (anchored right) there lots room h =
    let ticket = >>=-eq-ok (mint_ticket genesis id q.minted_lots right p) _ h in
    let call = >>=-eq-ok (settlement_call ticket.0 qlyphs_fee_account f) _ ticket.2 in
    subst (LotOpen m) (ok-inj call.2) (a, there, lots, room f refl)

lot_under-LotOpen :
    (genesis id : HexId) (m : List (Entry HexId Asset)) (a : Asset) (p : Option ProgressiveProfile)
    {lot : ProgressiveLot}
    → get m id ≡ some a
    → progressive_profile a.definition.policy ≡ p
    → lot_under genesis id a p ≡ ok lot
    → LotOpen m lot
lot_under-LotOpen genesis id m a none there e h = cc
lot_under-LotOpen genesis id m a (some p) there e h =
    let q = >>=-eq-ok (progressive_mint_quote a.definition.cap a.minted p) _ h in
    lot_of-LotOpen genesis id m a p q.0 q.0.next_fee a.right there (ap absent e)
      (λ f known. quote-fits a.definition.cap a.minted p q.1 known) q.2

lot_found-LotOpen :
    (s : State) (genesis id : HexId) (o : Option Asset) {lot : ProgressiveLot}
    → get s.assets id ≡ o
    → lot_found genesis id o ≡ ok lot
    → LotOpen s.assets lot
lot_found-LotOpen s genesis id none e h = cc
lot_found-LotOpen s genesis id (some a) e h =
    lot_under-LotOpen genesis id s.assets a (progressive_profile a.definition.policy) e refl h

pub progressive_lot-LotOpen :
    (s : State) (genesis id : HexId) {lot : ProgressiveLot}
    → progressive_lot s genesis id ≡ ok lot
    → LotOpen s.assets lot
unfolding progressive_lot
progressive_lot-LotOpen s genesis id h = lot_found-LotOpen s genesis id (get s.assets id) refl h

with_nonce-LotOpen :
    (m : List (Entry HexId Asset)) (number : Option ℕ) (lot : ProgressiveLot)
    {used : ProgressiveLot}
    → with_nonce number lot ≡ some used
    → LotOpen m lot
    → LotOpen m used
with_nonce-LotOpen m none lot h room = cc
with_nonce-LotOpen m (some n) lot {used} h room = elim (Bool-cases (n == lot.ticket.nonce)) [
  | inl e ↦ subst (LotOpen m) (same_lot e h) room
  | inr e ↦ other_lot e h
]
  where
    same_lot :
        (n == lot.ticket.nonce) ≡ true
        → (if n == lot.ticket.nonce then some lot else none) ≡ some used
        → lot ≡ used
    same_lot e h = ground arith

    other_lot :
        (n == lot.ticket.nonce) ≡ false
        → (if n == lot.ticket.nonce then some lot else none) ≡ some used
        → LotOpen m used
    other_lot e h =
        let clash : ◌≡◌ {A = Option ProgressiveLot} none (some used) =
          subst (λ b. (if b then some lot else none) ≡ some used) e h in
        cc

used_of-LotOpen :
    (s : State) (genesis : HexId) (creator : Option HexId) (number : Option ℕ) (id : Option HexId)
    {lot : ProgressiveLot}
    → used_of s genesis creator number id ≡ ok (some lot)
    → LotOpen s.assets lot
used_of-LotOpen s genesis creator number none h = cc
used_of-LotOpen s genesis creator number (some id) h =
    let known =
      require_that-eq-ok (nonce_known number && creator_known creator) multisig_event_incomplete _
        h in
    let lot = >>=-eq-ok (progressive_lot s genesis id) _ known.1 in
    with_nonce-LotOpen s.assets number lot.0 (ok-inj lot.2)
      (progressive_lot-LotOpen s genesis id lot.1)

right_used-LotOpen :
    (s : State) (genesis : HexId) (rights : Option (List (Entry Pair HexId))) (signers : List HexId)
    (threshold : ℕ) (creator : Option HexId) (number : Option ℕ) {lot : ProgressiveLot}
    → right_used s genesis rights signers threshold creator number ≡ ok (some lot)
    → LotOpen s.assets lot
unfolding used_right
right_used-LotOpen s genesis none signers threshold creator number h = cc
right_used-LotOpen s genesis (some rights) signers threshold creator number h =
    used_of-LotOpen s genesis creator number _ h

-- What tracking the multisigs of a receipt leaves alone, and the room for the lots it finds.
pub record WellTracked (s : State) (t : Tracked) : Type 0 where
  pub assets : t.state.assets ≡ s.assets
  pub balances : t.state.balances ≡ s.balances
  pub tickets : t.state.tickets ≡ s.tickets
  pub sequences : t.state.sequences ≡ s.sequences
  pub stands : position t.state ≡ position s
  pub fees : t.state.fees ≡ s.fees
  pub open_lots : AllOpen s.assets t.used

track-WellTracked :
    (s : State) (used : List ProgressiveLot) (id : HexId) (signers : List HexId) (threshold : ℕ)
    (found : Option ProgressiveLot) {t : Tracked}
    → AllOpen s.assets used
    → ((lot : ProgressiveLot) → found ≡ some lot → LotOpen s.assets lot)
    → track s used id signers threshold found ≡ ok t
    → WellTracked s t
track-WellTracked s used id signers threshold none all room h =
    let one = require_that-eq-ok (absent (get s.multisigs id)) duplicate_multisig _ h in
    let two = require_that-eq-ok (is_id id && every is_id signers) wrong_byte_length _ one.1 in
    subst (WellTracked s) (ok-inj two.1) (record {
      assets = refl;
      balances = refl;
      tickets = refl;
      sequences = refl;
      stands = refl;
      fees = refl;
      open_lots = all;
    })
track-WellTracked s used id signers threshold (some lot) all room h =
    let one =
      require_that-eq-ok (not (any_of (λ u. u.asset == lot.asset) used)) duplicate_right_use _ h in
    subst (WellTracked s) (ok-inj one.1) (record {
      assets = refl;
      balances = refl;
      tickets = refl;
      sequences = refl;
      stands = refl;
      fees = refl;
      open_lots = AllOpen-append s.assets used lot all (room lot refl);
    })

pub track_multisigs-WellTracked :
    (s : State) (genesis : HexId) (rights : Option (List (Entry Pair HexId)))
    (used : List ProgressiveLot) (es : List NativeEvent) {t : Tracked}
    → AllOpen s.assets used
    → track_multisigs s genesis rights used es ≡ ok t
    → WellTracked s t
unfolding track_multisigs
track_multisigs-WellTracked s genesis rights used [] all h =
    subst (WellTracked s) (ok-inj h) (record {
      assets = refl;
      balances = refl;
      tickets = refl;
      sequences = refl;
      stands = refl;
      fees = refl;
      open_lots = all;
    })
track_multisigs-WellTracked s genesis rights used
      (multisig_event id signers threshold creator number ∷ es) {t} all h =
    let lot = >>=-eq-ok (right_used s genesis rights signers threshold creator number) _ h in
    let next = >>=-eq-ok (track s used id signers threshold lot.0) _ lot.2 in
    let now =
      track-WellTracked s used id signers threshold lot.0 all
        (λ found e.
          right_used-LotOpen s genesis rights signers threshold creator number (lot.1 ∙ ap ok e))
        next.1 in
    let later =
      track_multisigs-WellTracked next.0.state genesis rights next.0.used es
        (subst (λ m. AllOpen m next.0.used) (sym now.assets) now.open_lots) next.2 in
    record {
      assets = later.assets ∙ now.assets;
      balances = later.balances ∙ now.balances;
      tickets = later.tickets ∙ now.tickets;
      sequences = later.sequences ∙ now.sequences;
      stands = later.stands ∙ now.stands;
      fees = later.fees ∙ now.fees;
      open_lots = subst (λ m. AllOpen m t.used) now.assets later.open_lots;
    }
track_multisigs-WellTracked s genesis rights used (created_event m p o ∷ es) all h =
    track_multisigs-WellTracked s genesis rights used es all h
track_multisigs-WellTracked s genesis rights used (approved_event m p o ∷ es) all h =
    track_multisigs-WellTracked s genesis rights used es all h
track_multisigs-WellTracked s genesis rights used (closed_event m p ∷ es) all h =
    track_multisigs-WellTracked s genesis rights used es all h
track_multisigs-WellTracked s genesis rights used (paid_event p t a ∷ es) all h =
    track_multisigs-WellTracked s genesis rights used es all h
track_multisigs-WellTracked s genesis rights used (remarked_event p ∷ es) all h =
    track_multisigs-WellTracked s genesis rights used es all h
track_multisigs-WellTracked s genesis rights used (batch_completed_event ∷ es) all h =
    track_multisigs-WellTracked s genesis rights used es all h
