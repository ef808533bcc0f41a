-- ===== src/Operations.antt =====
-- The operations of packages/native/src/codec.ts. A 32-byte or 40-byte id in canonical lower-case hex
-- is the number that its bytes spell, so ids are equal exactly when the strings are; an ASCII text is
-- the list of its character codes, and inscription content the list of its bytes.
use qlyphs_wallet.Prelude.{ℕ, List}

abbrev pub HexId : Type 0
HexId = ℕ

-- The account of thirty-two zero bytes.
abbrev pub zero_id : HexId
zero_id = 0

abbrev pub mainnet : HexId
mainnet = 0xfb5487c0be6ae4ade2d41d16e50465129861636c2b8d61fa94d7a19631626fba

abbrev pub qlyphs_fee_account : HexId
qlyphs_fee_account = 0x2139a57532fbf4764ad95754c17545fed7af915fb008b6494b02e503084da8b3

abbrev pub u32_max : ℕ
u32_max = 0xffffffff

abbrev pub max_u64 : ℕ
max_u64 = 0xffffffffffffffff

abbrev pub max_u128 : ℕ
max_u128 = 0xffffffffffffffffffffffffffffffff

pub data Policy : Type 0 where
  open_mint issuer : Policy

pub record Deploy : Type 0 where
  pub symbol : List ℕ
  pub decimals : ℕ
  pub cap : ℕ
  pub limit : ℕ
  pub policy : Policy

pub record ProgressiveDeploy : Type 0 where
  pub symbol : List ℕ
  pub decimals : ℕ
  pub cap : ℕ

pub record Offer : Type 0 where
  pub asset : HexId
  pub amount : ℕ
  pub buyer : HexId
  pub payout : HexId
  pub price : ℕ
  pub fee : ℕ
  pub fee_to : HexId
  pub expiry : ℕ

pub data FeeAdminOp : Type 0 where
  cancel freeze : FeeAdminOp
  set_operator set_guardian : (account : HexId) (effective : ℕ) → FeeAdminOp
  set_sentinel : (account : HexId) → FeeAdminOp

pub data Operation : Type 0 where
  deploy : Deploy → Operation
  mint : (asset : HexId) (amount : ℕ) → Operation
  transfer : (asset : HexId) (amount : ℕ) (to : HexId) → Operation
  offer : Offer → Operation
  inscribe : (content_type content : List ℕ) → Operation
  deploy_progressive deploy_progressive_v2 : ProgressiveDeploy → Operation
  fee_rate : (effective rate : ℕ) → Operation
  fee_admin : FeeAdminOp → Operation

pub record Envelope : Type 0 where
  pub genesis : HexId
  pub sequence : ℕ
  pub op : Operation
