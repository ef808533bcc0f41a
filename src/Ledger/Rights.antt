-- ===== src/Ledger/Rights.antt =====
-- Progressive rights of packages/native/src/protocol.ts: `progressiveLot`, `rightsByPair`, `usedRight`,
-- `settlementReceipt` and `useRights`.
use qlyphs_wallet.Prelude.{
  ℕ, ◌+◌, Option, none, some, Bool, true, false, ◌&&◌, not, List, [], ◌∷◌, ◌++◌, leb, ltb, ◌==◌,
  same_text, if◌then◌else◌, Result, ok, err, require_that, ◌>>=◌, ◌>>◌,
}
use qlyphs_wallet.Prelude.Maps.{Pair, Entry, same_pair, pair_key, number_key, get, set, delete}
use qlyphs_wallet.Refusal.{
  Refusal, not_a_progressive_asset, all_lots_minted, multisig_event_incomplete,
  unknown_progressive_right,
}
use qlyphs_wallet.Operations.{HexId, zero_id, qlyphs_fee_account, max_u64}
use qlyphs_wallet.Progressive.Quote.{
  ProgressiveProfile, progressive_mint_quote, ProgressiveMintQuote,
}
use qlyphs_wallet.Progressive.Ticket.{Anchor, MintTicket, mint_ticket, settlement_call}
use qlyphs_wallet.Ledger.Data.{
  State, Asset, MintRight, exhausted, anchored, Receipt, NativeEvent, multisig_event, paid_event,
  batch_completed_event, Verdict, accepted, right_misused, progressive_profile,
}
use qlyphs_wallet.Ledger.Change.{change, plus}

pub record ProgressiveLot : Type 0 where
  pub asset : HexId
  pub profile : ProgressiveProfile
  pub lot : ℕ
  pub amount : ℕ
  pub fee : ℕ
  pub anchor : Anchor
  pub ticket : MintTicket
  pub call : List ℕ

abbrev pub lot_of :
    HexId
    → HexId
    → ProgressiveProfile
    → ProgressiveMintQuote
    → Option ℕ
    → MintRight
    → Result Refusal ProgressiveLot
lot_of genesis asset profile q (some fee) (anchored right) = do
  ticket ← mint_ticket genesis asset q.minted_lots right profile
  call ← settlement_call ticket qlyphs_fee_account fee
  ok (record {
    asset = asset;
    profile = profile;
    lot = q.minted_lots + 1;
    amount = q.lot_size;
    fee = fee;
    anchor = right;
    ticket = ticket;
    call = call;
  })
lot_of genesis asset profile q fee right = err all_lots_minted

abbrev pub lot_under :
    HexId → HexId → Asset → Option ProgressiveProfile → Result Refusal ProgressiveLot
lot_under genesis asset a none = err not_a_progressive_asset
lot_under genesis asset a (some profile) =
    progressive_mint_quote a.definition.cap a.minted profile >>= λ q.
    lot_of genesis asset profile q q.next_fee a.right

abbrev pub lot_found : HexId → HexId → Option Asset → Result Refusal ProgressiveLot
lot_found genesis asset none = err not_a_progressive_asset
lot_found genesis asset (some a) =
    lot_under genesis asset a (progressive_profile a.definition.policy)

-- `progressiveLot`
unfoldable pub progressive_lot : State → HexId → HexId → Result Refusal ProgressiveLot
progressive_lot s genesis asset = lot_found genesis asset (get s.assets asset)

-- `pairKey`: a pair of signers in their sorted order.
abbrev pub signer_pair : HexId → HexId → Pair
signer_pair a b = if ltb b a then record { left = b; right = a } else record { left = a; right = b }

abbrev pub ticket_pair : MintTicket → Pair
ticket_pair t = signer_pair t.first t.second

-- The pair of a list of signers, where it has exactly two.
abbrev pub pair_of : List HexId → Option Pair
pair_of (a ∷ b ∷ []) = some (signer_pair a b)
pair_of _ = none

-- One round of `rightsByPair`.
abbrev pub right_of :
    HexId
    → HexId
    → Asset
    → Option ProgressiveProfile
    → MintRight
    → List (Entry Pair HexId)
    → Result Refusal (List (Entry Pair HexId))
right_of genesis id a (some profile) (anchored right) m = do
  q ← progressive_mint_quote a.definition.cap a.minted profile
  ticket ← mint_ticket genesis id q.minted_lots right profile
  ok (set m (ticket_pair ticket) id)
right_of genesis id a profile right m = ok m

abbrev pub rights_from :
    HexId
    → List (Entry HexId Asset)
    → List (Entry Pair HexId)
    → Result Refusal (List (Entry Pair HexId))
rights_from genesis [] m = ok m
rights_from genesis (e ∷ assets) m =
    right_of genesis e.key e.value (progressive_profile e.value.definition.policy) e.value.right m
    >>= λ next. rights_from genesis assets next

unfoldable pub rights_by_pair : State → HexId → Result Refusal (List (Entry Pair HexId))
rights_by_pair s genesis = rights_from genesis s.assets []

abbrev pub creator_known : Option HexId → Bool
creator_known none = false
creator_known (some a) = true

abbrev pub with_nonce : Option ℕ → ProgressiveLot → Option ProgressiveLot
with_nonce none lot = none
with_nonce (some nonce) lot = if nonce == lot.ticket.nonce then some lot else none

abbrev pub nonce_known : Option ℕ → Bool
nonce_known none = false
nonce_known (some nonce) = leb nonce max_u64

-- The right of a pair, used by a creation with this creator and nonce.
abbrev pub used_of :
    State → HexId → Option HexId → Option ℕ → Option HexId → Result Refusal (Option ProgressiveLot)
used_of s genesis creator number none = ok none
used_of s genesis creator number (some id) = do
  require_that (nonce_known number && creator_known creator) multisig_event_incomplete
  lot ← progressive_lot s genesis id
  ok (with_nonce number lot)

abbrev pub found_right : List (Entry Pair HexId) → Option Pair → Option HexId
found_right rights none = none
found_right rights (some k) = get rights k

-- `usedRight` of a `multisig` event's signers, threshold, creator and nonce.
unfoldable pub used_right :
    State
    → HexId
    → List (Entry Pair HexId)
    → List HexId
    → ℕ
    → Option HexId
    → Option ℕ
    → Result Refusal (Option ProgressiveLot)
used_right s genesis rights signers threshold creator number =
    used_of s genesis creator number
      (if threshold == 2 then found_right rights (pair_of signers) else none)

-- The three kinds of events that `settlementReceipt` keeps.
abbrev pub relevant : List NativeEvent → List NativeEvent
relevant [] = []
relevant (multisig_event id signers threshold creator nonce ∷ es) =
    multisig_event id signers threshold creator nonce ∷ relevant es
relevant (paid_event payer to amount ∷ es) = paid_event payer to amount ∷ relevant es
relevant (batch_completed_event ∷ es) = batch_completed_event ∷ relevant es
relevant (e ∷ es) = relevant es

-- `===` on fields that may be null or undefined, against one that is not.
abbrev pub is_some_number : Option ℕ → ℕ → Bool
is_some_number none n = false
is_some_number (some m) n = m == n

abbrev pub is_some_pair : Option Pair → Pair → Bool
is_some_pair none k = false
is_some_pair (some l) k = same_pair l k

abbrev pub settles : HexId → ProgressiveLot → List NativeEvent → Bool
settles signer lot
      (multisig_event id signers threshold creator nonce
        ∷ paid_event payer to amount
        ∷ batch_completed_event
        ∷ []) =
    is_some_number creator signer
    && is_some_number nonce lot.ticket.nonce
    && is_some_pair (pair_of signers) (ticket_pair lot.ticket)
    && payer == signer
    && to == qlyphs_fee_account
    && amount == lot.fee
settles signer lot _ = false

unfoldable pub settlement_receipt : Receipt → HexId → ProgressiveLot → Bool
settlement_receipt r signer lot = settles signer lot (relevant r.events)

-- The buyer of the lot, where the receipt is its exact settlement.
abbrev pub settled_by : Receipt → Bool → ProgressiveLot → Option HexId → Option HexId
settled_by r alone lot none = none
settled_by r alone lot (some signer) =
    if r.success
      && not (signer == zero_id)
      && not (signer == qlyphs_fee_account)
      && alone
      && same_text r.call_hex lot.call
      && settlement_receipt r signer lot
    then some signer
    else none

-- The right after a use: at this extrinsic, unless the last lot is minted.
abbrev pub next_right : State → Receipt → Asset → ℕ → MintRight
next_right s r a minted =
    if minted == a.definition.cap
    then exhausted
    else anchored (record { height = s.height; hash = s.hash; index = r.index })

abbrev pub with_right : State → Receipt → HexId → Asset → ℕ → State
with_right s r asset a minted = record s {
  assets = set s.assets asset (record a { minted = minted; right = next_right s r a minted });
}

abbrev pub journaled : State → Receipt → Verdict → State
journaled s r verdict = record s {
  journal = s.journal ++ (record { height = s.height; index = r.index; verdict = verdict } ∷ []);
}

-- The use of one right, by the buyer it has.
abbrev pub use_right :
    State → Receipt → ProgressiveLot → Asset → Option HexId → Result Refusal State
use_right s r lot a none = ok (journaled (with_right s r lot.asset a a.minted) r right_misused)
use_right s r lot a (some buyer) = do
  given ←
      change (with_right s r lot.asset a (a.minted + lot.amount)) lot.asset buyer (plus lot.amount)
  ok (journaled given r accepted)

abbrev pub with_anchor : Asset → MintRight → Result Refusal Asset
with_anchor a (anchored right) = ok a
with_anchor a right = err unknown_progressive_right

abbrev pub righted : Option Asset → Result Refusal Asset
righted none = err unknown_progressive_right
righted (some a) = with_anchor a a.right

-- `useRights`, over the used lots; `alone` is `used.length === 1`.
unfoldable pub use_rights : State → Receipt → Bool → List ProgressiveLot → Result Refusal State
use_rights s r alone [] = ok s
use_rights s r alone (lot ∷ used) = do
  a ← righted (get s.assets lot.asset)
  next ← use_right s r lot a (settled_by r alone lot r.signer)
  use_rights next r alone used

-- The rights that are left.
unfoldable pub rights_left : List (Entry Pair HexId) → List ProgressiveLot → List (Entry Pair HexId)
rights_left rights [] = rights
rights_left rights (lot ∷ used) = rights_left (delete rights (ticket_pair lot.ticket)) used
