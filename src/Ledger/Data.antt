-- ===== src/Ledger/Data.antt =====
-- The state, the receipts and the rules of packages/native/src/protocol.ts. A map of the state is the
-- list of its entries; the string keys `asset:owner` and `multisig:proposal` are pairs of numbers.
use qlyphs_wallet.Prelude.{ℕ, ◌+◌, ◌*◌, ◌/◌, Option, none, some, Bool, List, []}
use qlyphs_wallet.Prelude.Maps.{Pair, Entry, pair_key, number_key, text_key, get}
use qlyphs_wallet.Refusal.{Refusal}
use qlyphs_wallet.Operations.{HexId, Offer}
use qlyphs_wallet.Fees.State.{FeeRules, FeeState}
use qlyphs_wallet.Progressive.Quote.{ProgressiveProfile, v1, v2}
use qlyphs_wallet.Progressive.Ticket.{Anchor}

pub record Rules : Type 0 where
  pub progressive : Option ℕ
  pub progressive_v2 : Option ℕ
  pub fee_schedule : Option FeeRules

pub data NativeEvent : Type 0 where
  multisig_event :
      (id : HexId) (signers : List HexId) (threshold : ℕ) (creator : Option HexId)
      (nonce : Option ℕ)
      → NativeEvent
  created_event : (multisig : HexId) (proposal : ℕ) (proposer : HexId) → NativeEvent
  approved_event : (multisig : HexId) (proposal : ℕ) (approver : HexId) → NativeEvent
  closed_event : (multisig : HexId) (proposal : ℕ) → NativeEvent
  paid_event : (payer to : HexId) (amount : ℕ) → NativeEvent
  remarked_event : (sender : HexId) → NativeEvent
  batch_completed_event : NativeEvent

-- `call_bytes` are the bytes of `callHex`.
pub record Receipt : Type 0 where
  pub index : ℕ
  pub hash : HexId
  pub signer : Option HexId
  pub call_hex : List ℕ
  pub success : Bool
  pub events : List NativeEvent

pub data AssetPolicy : Type 0 where
  open_policy issuer_policy inscription_policy progressive_policy progressive_v2_policy :
      AssetPolicy

pub record AssetDefinition : Type 0 where
  pub symbol : List ℕ
  pub decimals : ℕ
  pub cap : ℕ
  pub limit : ℕ
  pub policy : AssetPolicy

abbrev pub inscription_definition : AssetDefinition
inscription_definition = record {
  symbol = [];
  decimals = 0;
  cap = 1;
  limit = 0;
  policy = inscription_policy;
}

pub record Inscription : Type 0 where
  pub id : HexId
  pub number : ℕ
  pub creator : HexId
  pub content_type : List ℕ
  pub content : List ℕ
  pub height : ℕ
  pub index : ℕ

-- The field `right`: absent, null or an anchor.
pub data MintRight : Type 0 where
  no_right exhausted : MintRight
  anchored : Anchor → MintRight

pub record Asset : Type 0 where
  pub creator : HexId
  pub definition : AssetDefinition
  pub minted : ℕ
  pub right : MintRight

pub data TicketStatus : Type 0 where
  locked settled released : TicketStatus

pub record Ticket : Type 0 where
  pub key : Pair
  pub multisig : HexId
  pub proposal : ℕ
  pub seller : HexId
  pub offer : Offer
  pub call_hex : List ℕ
  pub created_height : ℕ
  pub status : TicketStatus
  pub settlement : Option HexId

pub record Multisig : Type 0 where
  pub signers : List HexId
  pub threshold : ℕ

-- The verdicts of the journal; the text of a rejection is its constructor.
pub data Verdict : Type 0 where
  accepted right_misused not_current_right settlement_failed : Verdict
  fee_batch_failed extrinsic_failed : Verdict
  rejected : Refusal → Verdict

pub record JournalEntry : Type 0 where
  pub height : ℕ
  pub index : ℕ
  pub verdict : Verdict

pub record State : Type 0 where
  pub height : ℕ
  pub hash : HexId
  pub finalized : ℕ
  pub sequences : List (Entry HexId ℕ)
  pub assets : List (Entry HexId Asset)
  pub balances : List (Entry Pair ℕ)
  pub multisigs : List (Entry HexId Multisig)
  pub tickets : List (Entry Pair Ticket)
  pub symbols : List (Entry (List ℕ) HexId)
  pub inscriptions : List (Entry HexId Inscription)
  pub next_inscription : ℕ
  pub fees : Option FeeState
  pub journal : List JournalEntry

abbrev pub progressive_profile : AssetPolicy → Option ProgressiveProfile
progressive_profile progressive_policy = some v1
progressive_profile progressive_v2_policy = some v2
progressive_profile _ = none

abbrev pub first_inscription : ℕ
first_inscription = 1

-- `saleFee`: one percent of the price, rounded up.
abbrev pub sale_fee_bps : ℕ
sale_fee_bps = 100

abbrev pub sale_fee : ℕ → ℕ
sale_fee price = (price * sale_fee_bps + 9999) / 10000

abbrev pub ticket_key : HexId → ℕ → Pair
ticket_key multisig proposal = record { left = multisig; right = proposal }

abbrev pub balance_key : HexId → HexId → Pair
balance_key asset owner = record { left = asset; right = owner }

-- `map.get(key) ?? 0n`
abbrev pub or_zero : Option ℕ → ℕ
or_zero none = 0
or_zero (some n) = n

abbrev pub balance_of : State → HexId → HexId → ℕ
balance_of s asset owner = or_zero (get s.balances (balance_key asset owner))
