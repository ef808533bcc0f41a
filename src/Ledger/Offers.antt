-- ===== src/Ledger/Offers.antt =====
-- The offer branch of `applyOperation` of packages/native/src/protocol.ts.
use qlyphs_wallet.Prelude.{
  ℕ, ◌+◌, Option, none, some, Bool, true, false, ◌&&◌, not, List, [], ◌∷◌, ltb, leb, ◌==◌, any_of,
  length, Result, ok, err, require_that, ◌>>=◌, ◌>>◌,
}
use qlyphs_wallet.Prelude.Maps.{pair_key, number_key, get, set}
use qlyphs_wallet.Refusal.{
  Refusal, offer_requires_proposal, invalid_expiry, invalid_counterparties, no_sale_fee,
  not_bilateral_multisig, ambiguous_proposal_event, wrong_proposal_origin, ticket_reused,
}
use qlyphs_wallet.Operations.{HexId, Offer, zero_id, qlyphs_fee_account}
use qlyphs_wallet.Wire.Calls.{Call, propose, call_bytes}
use qlyphs_wallet.Ledger.Data.{
  State, Ticket, locked, Multisig, Receipt, NativeEvent, created_event, ticket_key, sale_fee,
}
use qlyphs_wallet.Ledger.Change.{change, minus}

-- `!map.has(key)`
abbrev pub absent {ℓ} : {V : Type ℓ} → Option V → Bool
absent none = true
absent (some v) = false

pub record Created : Type 0 where
  pub multisig : HexId
  pub proposal : ℕ
  pub proposer : HexId

-- The `created` events of a receipt.
abbrev pub created_events : List NativeEvent → List Created
created_events [] = []
created_events (created_event m p o ∷ es) =
    record { multisig = m; proposal = p; proposer = o } ∷ created_events es
created_events (e ∷ es) = created_events es

abbrev pub the_created : List NativeEvent → Result Refusal Created
the_created es = elim (created_events es) [
  | [] ↦ err ambiguous_proposal_event
  | c ∷ cs ↦ elim cs [ [] ↦ ok c | d ∷ ds ↦ err ambiguous_proposal_event ]
]

abbrev pub bilateral : HexId → HexId → Option Multisig → Bool
bilateral owner buyer none = false
bilateral owner buyer (some m) =
    m.threshold == 2
    && length m.signers == 2
    && any_of (λ x. x == owner) m.signers
    && any_of (λ x. x == buyer) m.signers

pub record Proposal : Type 0 where
  pub multisig : HexId
  pub call : Call
  pub expiry : ℕ

abbrev pub proposal_of : Call → Result Refusal Proposal
proposal_of (propose m c e) = ok (record { multisig = m; call = c; expiry = e })
proposal_of _ = err offer_requires_proposal

-- What an offer must satisfy before its tokens are locked: the new ticket's proposal number.
unfoldable pub check_offer : State → Receipt → HexId → Offer → Proposal → Result Refusal ℕ
check_offer s r owner p call = do
  require_that
      (call.expiry == p.expiry && ltb s.height p.expiry && leb p.expiry (s.height + 100800))
      invalid_expiry
  require_that
      (not (p.buyer == owner)
        && not (p.buyer == zero_id)
        && not (p.payout == p.buyer)
        && not (p.payout == zero_id))
      invalid_counterparties
  require_that
      (p.fee == sale_fee p.price && p.fee_to == qlyphs_fee_account && not (p.fee_to == p.buyer))
      no_sale_fee
  require_that (bilateral owner p.buyer (get s.multisigs call.multisig)) not_bilateral_multisig
  ev ← the_created r.events
  require_that (ev.multisig == call.multisig && ev.proposer == owner) wrong_proposal_origin
  require_that (absent (get s.tickets (ticket_key call.multisig ev.proposal))) ticket_reused
  ok ev.proposal

abbrev pub new_ticket : State → HexId → Offer → HexId → ℕ → List ℕ → Ticket
new_ticket s owner p multisig proposal bytes = record {
  key = ticket_key multisig proposal;
  multisig = multisig;
  proposal = proposal;
  seller = owner;
  offer = p;
  call_hex = bytes;
  created_height = s.height;
  status = locked;
  settlement = none;
}

unfoldable pub lock_offer : State → Receipt → HexId → Offer → Call → Result Refusal State
lock_offer s r owner p c = do
  call ← proposal_of c
  proposal ← check_offer s r owner p call
  paid ← change s p.asset owner (minus p.amount)
  bytes ← call_bytes call.call
  ok (record paid {
    tickets =
        set paid.tickets (ticket_key call.multisig proposal)
          (new_ticket s owner p call.multisig proposal bytes);
  })
