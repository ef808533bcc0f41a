-- ===== src/Progressive/Ticket.antt =====
-- `mintTicket`, `settlementCall` and `readSettlement` of packages/native/src/progressive-mint.ts. The
-- table of remembered tickets is left out: a ticket is computed again instead, to the same value.
use qlyphs_wallet.Prelude.{
  ℕ, Option, none, some, ◌&&◌, not, List, [], ◌∷◌, ◌++◌, ltb, leb, ◌==◌, take, codes, same_text,
  if◌then◌else◌, Result, ok, err, require_that, ◌>>=◌, ◌>>◌,
}
use qlyphs_wallet.Refusal.{
  Refusal, no_lot_left, invalid_right_anchor, ticket_signer_collision, not_settlement_shape,
  not_threshold_two, not_settlement_payment, noncanonical_settlement,
}
use qlyphs_wallet.Operations.{HexId, u32_max}
use qlyphs_wallet.Fees.State.{max_safe}
use qlyphs_wallet.Progressive.Quote.{ProgressiveProfile, v1, v2, progressive_mint_lots}
use qlyphs_wallet.Progressive.Sha512.{sha512}
use qlyphs_wallet.Wire.Bytes.{uint, compact, id_bytes, spelled}
use qlyphs_wallet.Wire.Reading.{Read, read_int, read_end}
use qlyphs_wallet.Wire.Compact.{read_compact}
use qlyphs_wallet.Wire.Fields.{read_id}

-- Where a right was created.
pub record Anchor : Type 0 where
  pub height : ℕ
  pub hash : HexId
  pub index : ℕ

-- The two signers in their order, and the nonce.
pub record MintTicket : Type 0 where
  pub first : HexId
  pub second : HexId
  pub nonce : ℕ

-- `RIGHT_DOMAINS`
abbrev pub right_domain : ProgressiveProfile → List ℕ
right_domain v1 = codes "Qlyphs/ProgressiveMint/right/v1" ++ (0 ∷ [])
right_domain v2 = codes "Qlyphs/ProgressiveMint/right/v2" ++ (0 ∷ [])

-- Hex strings of one length sort like the numbers they spell.
abbrev pub sorted_ticket : HexId → HexId → ℕ → MintTicket
sorted_ticket a b nonce =
    if ltb b a
    then record { first = b; second = a; nonce = nonce }
    else record { first = a; second = b; nonce = nonce }

unfoldable pub mint_ticket :
    HexId → HexId → ℕ → Anchor → ProgressiveProfile → Result Refusal MintTicket
mint_ticket genesis asset minted_lots anchor profile = do
  require_that (ltb minted_lots progressive_mint_lots) no_lot_left
  require_that (leb anchor.height max_safe && leb anchor.index u32_max) invalid_right_anchor
  anchor_bytes ← id_bytes anchor.hash 32
  network ← id_bytes genesis 32
  id ← id_bytes asset 40
  lots ← uint minted_lots 2
  let namespace = spelled 0 (take 32 (sha512 (right_domain profile ++ (network ++ (id ++ lots)))))
  require_that (not (namespace == anchor.hash)) ticket_signer_collision
  ok (sorted_ticket namespace anchor.hash anchor.index)

unfoldable pub settlement_call : MintTicket → HexId → ℕ → Result Refusal (List ℕ)
settlement_call ticket fee_to fee = do
  calls ← compact 2
  signers ← compact 2
  first ← id_bytes ticket.first 32
  second ← id_bytes ticket.second 32
  threshold ← uint 2 4
  nonce ← uint ticket.nonce 8
  to ← id_bytes fee_to 32
  amount ← compact fee
  ok (
      9
      ∷ (2
          ∷ (calls
              ++ (19
                  ∷ (0
                      ∷ (signers
                          ++ (first
                              ++ (second
                                  ++ (threshold
                                      ++ (nonce ++ (2 ∷ (3 ∷ (0 ∷ (to ++ amount))))))))))))))

-- What a settlement pays, with the ticket that it creates.
pub record Settlement : Type 0 where
  pub ticket : MintTicket
  pub to : HexId
  pub amount : ℕ

-- `byte(n)`: the next byte must be `n`.
abbrev pub read_byte : ℕ → Refusal → List ℕ → Result Refusal (List ℕ)
read_byte n message input = do
  byte ← read_int 1 input
  require_that (byte.value == n) message
  ok byte.rest

-- `r.compact() === 2n`
abbrev pub read_two : List ℕ → Result Refusal (List ℕ)
read_two input = do
  n ← read_compact input
  require_that (n.value == 2) not_settlement_shape
  ok n.rest

unfoldable pub read_creation : List ℕ → Result Refusal (Read MintTicket)
read_creation input = do
  first ← read_id 32 input
  second ← read_id 32 first.rest
  threshold ← read_int 4 second.rest
  require_that (threshold.value == 2) not_threshold_two
  nonce ← read_int 8 threshold.rest
  ok (record {
    value = record { first = first.value; second = second.value; nonce = nonce.value };
    rest = nonce.rest;
  })

pub record Payout : Type 0 where
  pub to : HexId
  pub amount : ℕ

unfoldable pub read_payment : List ℕ → Result Refusal (Read Payout)
unfolding read_int
read_payment input = do
  pallet ← read_byte 2 not_settlement_payment input
  tag ← read_byte 3 not_settlement_payment pallet
  kind ← read_byte 0 not_settlement_payment tag
  to ← read_id 32 kind
  amount ← read_compact to.rest
  ok (record { value = record { to = to.value; amount = amount.value }; rest = amount.rest })

-- The shape of the call up to the signers of the ticket.
unfoldable pub read_shape : List ℕ → Result Refusal (List ℕ)
unfolding read_int
read_shape input = do
  pallet ← read_byte 9 not_settlement_shape input
  tag ← read_byte 2 not_settlement_shape pallet
  calls ← read_two tag
  creation ← read_byte 19 not_settlement_shape calls
  creation_tag ← read_byte 0 not_settlement_shape creation
  read_two creation_tag

unfoldable pub parse_settlement : List ℕ → Result Refusal Settlement
parse_settlement input = do
  signers ← read_shape input
  ticket ← read_creation signers
  payout ← read_payment ticket.rest
  read_end payout.rest
  bs ← settlement_call ticket.value payout.value.to payout.value.amount
  require_that (same_text bs input) noncanonical_settlement
  ok (record { ticket = ticket.value; to = payout.value.to; amount = payout.value.amount })

abbrev pub or_none : Result Refusal Settlement → Option Settlement
or_none (err m) = none
or_none (ok x) = some x

-- `readSettlement`: a throw is caught.
unfoldable pub read_settlement : List ℕ → Option Settlement
read_settlement input = or_none (parse_settlement input)
