-- ===== src/Wire/Decoding.antt =====
-- `decode` of packages/native/src/codec.ts.
use qlyphs_wallet.Prelude.{
  ℕ, Bool, true, false, ◌&&◌, ◌||◌, not, List, length, every, ltb, leb, ◌==◌, if◌then◌else◌,
  same_text, Result, ok, err, require_that, ◌>>=◌, ◌>>◌,
}
use qlyphs_wallet.Refusal.{
  Refusal, not_text, invalid_policy, invalid_content_type, empty_content, payload_too_large,
  unknown_protocol, unknown_fee_admin_action, reserved_operation, unknown_operation,
  non_canonical_operation,
}
use qlyphs_wallet.Operations.{
  HexId, open_mint, issuer, cancel, freeze, set_operator, set_guardian, set_sentinel, Operation,
  ProgressiveDeploy, deploy, mint, transfer, offer, inscribe, deploy_progressive,
  deploy_progressive_v2, fee_rate, fee_admin, Envelope,
}
use qlyphs_wallet.Wire.Reading.{Read, read_int, read_end}
use qlyphs_wallet.Wire.Fields.{read_id, read_vector, max_payload}
use qlyphs_wallet.Wire.Payload.{is_content_type, encode, protocol_header}

-- Which optional tags are read.
pub record DecodeOptions : Type 0 where
  pub progressive : Bool
  pub progressive_v2 : Bool
  pub fee_schedule : Bool

-- The text of a vector, by the fatal UTF-8 decoder. Only ASCII texts pass the tests that follow in the
-- source, on symbols in `encode` and on content types at once: other bytes are refused here.
unfoldable pub read_text : ℕ → List ℕ → Result Refusal (Read (List ℕ))
read_text most input = do
  bytes ← read_vector most input
  require_that (every (λ b. ltb b 128) bytes.value) not_text
  ok bytes

abbrev pub read_deploy : List ℕ → Result Refusal (Read Operation)
read_deploy input = do
  symbol ← read_text 12 input
  decimals ← read_int 1 symbol.rest
  supply ← read_int 16 decimals.rest
  limit ← read_int 16 supply.rest
  policy ← read_int 1 limit.rest
  require_that (leb policy.value 1) invalid_policy
  ok (record {
    value = deploy (record {
      symbol = symbol.value;
      decimals = decimals.value;
      cap = supply.value;
      limit = limit.value;
      policy = if policy.value == 0 then open_mint else issuer;
    });
    rest = policy.rest;
  })

abbrev pub read_inscribe : List ℕ → Result Refusal (Read Operation)
read_inscribe input = do
  kind ← read_text 64 input
  require_that (is_content_type kind.value) invalid_content_type
  content ← read_vector max_payload kind.rest
  require_that (leb 1 (length content.value)) empty_content
  ok (record { value = inscribe kind.value content.value; rest = content.rest })

abbrev pub read_progressive : Bool → List ℕ → Result Refusal (Read Operation)
read_progressive second input = do
  symbol ← read_text 12 input
  decimals ← read_int 1 symbol.rest
  supply ← read_int 16 decimals.rest
  let p : ProgressiveDeploy = record {
    symbol = symbol.value;
    decimals = decimals.value;
    cap = supply.value;
  }
  ok (record {
    value = if second then deploy_progressive_v2 p else deploy_progressive p;
    rest = supply.rest;
  })

abbrev pub read_fee_rate : List ℕ → Result Refusal (Read Operation)
read_fee_rate input = do
  effective ← read_int 4 input
  rate ← read_int 8 effective.rest
  ok (record { value = fee_rate effective.value rate.value; rest = rate.rest })

abbrev pub read_role : Bool → List ℕ → Result Refusal (Read Operation)
read_role is_operator input = do
  account ← read_id 32 input
  effective ← read_int 4 account.rest
  ok (record {
    value = fee_admin (
        if is_operator
        then set_operator account.value effective.value
        else set_guardian account.value effective.value);
    rest = effective.rest;
  })

abbrev pub read_sentinel : List ℕ → Result Refusal (Read Operation)
read_sentinel input = do
  account ← read_id 32 input
  ok (record { value = fee_admin (set_sentinel account.value); rest = account.rest })

-- By the index of the action in `FEE_ADMIN_ACTIONS`.
abbrev pub read_action : ℕ → List ℕ → Result Refusal (Read Operation)
read_action action input =
    if action == 0
    then ok (record { value = fee_admin cancel; rest = input })
    else if action == 1
    then ok (record { value = fee_admin freeze; rest = input })
    else if action == 2
    then read_role true input
    else if action == 3
    then read_role false input
    else if action == 4
    then read_sentinel input
    else err unknown_fee_admin_action

abbrev pub read_fee_admin : List ℕ → Result Refusal (Read Operation)
read_fee_admin input = do action ← read_int 1 input; read_action action.value action.rest

abbrev pub read_transfer : HexId → ℕ → List ℕ → Result Refusal (Read Operation)
read_transfer asset amount input = do
  to ← read_id 32 input
  ok (record { value = transfer asset amount to.value; rest = to.rest })

abbrev pub read_offer : HexId → ℕ → List ℕ → Result Refusal (Read Operation)
read_offer asset amount input = do
  buyer ← read_id 32 input
  payout ← read_id 32 buyer.rest
  price ← read_int 16 payout.rest
  fee ← read_int 16 price.rest
  fee_to ← read_id 32 fee.rest
  expiry ← read_int 4 fee_to.rest
  ok (record {
    value = offer (record {
      asset = asset;
      amount = amount;
      buyer = buyer.value;
      payout = payout.value;
      price = price.value;
      fee = fee.value;
      fee_to = fee_to.value;
      expiry = expiry.value;
    });
    rest = expiry.rest;
  })

abbrev pub is_reserved : ℕ → Bool
is_reserved tag = tag == 4 || tag == 5 || tag == 6 || tag == 7 || tag == 8 || tag == 15

abbrev pub read_by_tag : ℕ → HexId → ℕ → List ℕ → Result Refusal (Read Operation)
read_by_tag tag asset amount input =
    if tag == 1
    then ok (record { value = mint asset amount; rest = input })
    else if tag == 2
    then read_transfer asset amount input
    else read_offer asset amount input

-- The last tags: an operation on an asset.
abbrev pub read_asset_operation : ℕ → List ℕ → Result Refusal (Read Operation)
read_asset_operation tag input = do
  require_that (not (is_reserved tag)) reserved_operation
  require_that (leb tag 3) unknown_operation
  asset ← read_id 40 input
  amount ← read_int 16 asset.rest
  read_by_tag tag asset.value amount.value amount.rest

unfoldable pub read_operation : DecodeOptions → ℕ → List ℕ → Result Refusal (Read Operation)
unfolding read_int
read_operation options tag input =
    if tag == 0
    then read_deploy input
    else if tag == 9
    then read_inscribe input
    else if tag == 11 && options.progressive
    then read_progressive false input
    else if tag == 12 && options.progressive_v2
    then read_progressive true input
    else if tag == 13 && options.fee_schedule
    then read_fee_rate input
    else if tag == 14 && options.fee_schedule
    then read_fee_admin input
    else read_asset_operation tag input

unfoldable pub decode : DecodeOptions → List ℕ → Result Refusal Envelope
decode options input = do
  require_that (leb (length input) max_payload) payload_too_large
  header ← read_id 5 input
  require_that (header.value == protocol_header) unknown_protocol
  genesis ← read_id 32 header.rest
  sequence ← read_int 8 genesis.rest
  tag ← read_int 1 sequence.rest
  op ← read_operation options tag.value tag.rest
  read_end op.rest
  let e : Envelope = record { genesis = genesis.value; sequence = sequence.value; op = op.value }
  bs ← encode e
  require_that (same_text bs input) non_canonical_operation
  ok e
