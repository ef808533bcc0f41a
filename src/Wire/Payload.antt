-- ===== src/Wire/Payload.antt =====
-- `encode` of packages/native/src/codec.ts: the payload of a signed operation.
use qlyphs_wallet.Prelude.{
  ℕ, ◌+◌, Bool, false, ◌&&◌, ◌||◌, not, List, [], ◌∷◌, ◌++◌, length, every, ltb, leb, ◌==◌, Result,
  ok, require_that, ◌>>=◌, ◌>>◌,
}
use qlyphs_wallet.Refusal.{
  Refusal, invalid_symbol, invalid_decimals, mint_limit_exceeds_cap, amount_must_be_positive,
  invalid_content_type, empty_content, payment_overflow, zero_fee_needs_zero_fee_to,
  payload_too_large, invalid_effective_height, invalid_expiry,
}
use qlyphs_wallet.Operations.{
  Policy, open_mint, issuer, ProgressiveDeploy, Offer, cancel, freeze, set_operator, set_guardian,
  set_sentinel, Operation, deploy, mint, transfer, offer, inscribe, deploy_progressive,
  deploy_progressive_v2, fee_rate, fee_admin, Envelope, zero_id, u32_max, max_u128,
}
use qlyphs_wallet.Fees.Rate.{is_symbol}
use qlyphs_wallet.Wire.Bytes.{uint, vec, id_bytes}
use qlyphs_wallet.Wire.Fields.{max_payload}

-- `PROTOCOL_HEADER` as an id of five bytes: "QLYP" and the version.
abbrev pub protocol_header : ℕ
protocol_header = 0x514c595001

abbrev pub is_alphanumeric : ℕ → Bool
is_alphanumeric c = (leb b'a' c && leb c b'z') || (leb b'0' c && leb c b'9')

abbrev pub is_media : ℕ → Bool
is_media c = is_alphanumeric c || c == b'.' || c == b'+' || c == b'-'

abbrev pub media_subtype : List ℕ → Bool
media_subtype [] = false
media_subtype (c ∷ cs) = is_alphanumeric c && every is_media cs

abbrev pub media_rest : List ℕ → Bool
media_rest [] = false
media_rest (c ∷ cs) = (c == b'/' && media_subtype cs) || (is_media c && media_rest cs)

abbrev pub media_type : List ℕ → Bool
media_type [] = false
media_type (c ∷ cs) = is_alphanumeric c && media_rest cs

-- The pattern `INSCRIPTION_CONTENT_TYPE` on a text of 3 to 64 characters.
unfoldable pub is_content_type : List ℕ → Bool
is_content_type x = leb 3 (length x) && leb (length x) 64 && media_type x

abbrev pub positive : ℕ → Result Refusal (List ℕ)
positive n = require_that (ltb 0 n) amount_must_be_positive >> uint n 16

abbrev pub symbol_bytes : List ℕ → Result Refusal (List ℕ)
symbol_bytes x = require_that (is_symbol x) invalid_symbol >> vec x

-- `u32` of the codec.
abbrev pub effective_bytes : ℕ → Result Refusal (List ℕ)
effective_bytes n = require_that (leb n u32_max) invalid_effective_height >> uint n 4

abbrev pub policy_byte : Policy → ℕ
policy_byte open_mint = 0
policy_byte issuer = 1

abbrev pub progressive_bytes : ℕ → ProgressiveDeploy → Result Refusal (List ℕ)
progressive_bytes tag p = do
  require_that (leb p.decimals 18) invalid_decimals
  symbol ← symbol_bytes p.symbol
  cap_bytes ← positive p.cap
  ok (tag ∷ (symbol ++ (p.decimals ∷ cap_bytes)))

abbrev pub offer_bytes : Offer → Result Refusal (List ℕ)
offer_bytes p = do
  asset ← id_bytes p.asset 40
  amount ← positive p.amount
  require_that (leb p.expiry u32_max) invalid_expiry
  require_that (leb (p.price + p.fee) max_u128) payment_overflow
  require_that (not (p.fee == 0) || p.fee_to == zero_id) zero_fee_needs_zero_fee_to
  buyer ← id_bytes p.buyer 32
  payout ← id_bytes p.payout 32
  price ← positive p.price
  fee ← uint p.fee 16
  fee_to ← id_bytes p.fee_to 32
  expiry ← uint p.expiry 4
  ok (3 ∷ (asset ++ (amount ++ (buyer ++ (payout ++ (price ++ (fee ++ (fee_to ++ expiry))))))))

-- What follows the header, the network and the sequence.
unfoldable pub operation_bytes : Operation → Result Refusal (List ℕ)
operation_bytes (deploy p) = do
  require_that (leb p.decimals 18) invalid_decimals
  require_that (leb p.limit p.cap) mint_limit_exceeds_cap
  symbol ← symbol_bytes p.symbol
  cap_bytes ← positive p.cap
  limit ← positive p.limit
  ok (0 ∷ (symbol ++ (p.decimals ∷ (cap_bytes ++ (limit ++ (policy_byte p.policy ∷ []))))))
operation_bytes (deploy_progressive p) = progressive_bytes 11 p
operation_bytes (deploy_progressive_v2 p) = progressive_bytes 12 p
operation_bytes (inscribe content_type content) = do
  require_that (is_content_type content_type) invalid_content_type
  require_that (leb 1 (length content)) empty_content
  kind ← vec content_type
  body ← vec content
  ok (9 ∷ (kind ++ body))
operation_bytes (fee_rate effective rate) = do
  height ← effective_bytes effective
  bs ← uint rate 8
  ok (13 ∷ (height ++ bs))
operation_bytes (fee_admin cancel) = ok (14 ∷ (0 ∷ []))
operation_bytes (fee_admin freeze) = ok (14 ∷ (1 ∷ []))
operation_bytes (fee_admin (set_operator account effective)) = do
  bs ← id_bytes account 32
  height ← effective_bytes effective
  ok (14 ∷ (2 ∷ (bs ++ height)))
operation_bytes (fee_admin (set_guardian account effective)) = do
  bs ← id_bytes account 32
  height ← effective_bytes effective
  ok (14 ∷ (3 ∷ (bs ++ height)))
operation_bytes (fee_admin (set_sentinel account)) = do bs ← id_bytes account 32; ok (14 ∷ (4 ∷ bs))
operation_bytes (mint asset amount) = do
  bs ← id_bytes asset 40
  n ← positive amount
  ok (1 ∷ (bs ++ n))
operation_bytes (transfer asset amount to) = do
  bs ← id_bytes asset 40
  n ← positive amount
  recipient ← id_bytes to 32
  ok (2 ∷ (bs ++ (n ++ recipient)))
operation_bytes (offer p) = offer_bytes p

unfoldable pub encode : Envelope → Result Refusal (List ℕ)
encode e = do
  header ← id_bytes protocol_header 5
  genesis ← id_bytes e.genesis 32
  sequence ← uint e.sequence 8
  op ← operation_bytes e.op
  require_that (leb (length (header ++ (genesis ++ (sequence ++ op)))) max_payload)
      payload_too_large
  ok (header ++ (genesis ++ (sequence ++ op)))
