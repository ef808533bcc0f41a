-- ===== src/Ledger/Apply.antt =====
-- `applyOperation` of packages/native/src/protocol.ts: one function for each kind of operation.
use qlyphs_wallet.Prelude.{
  ℕ, ◌+◌, ◌/◌, Option, none, some, Bool, true, false, ◌&&◌, ◌||◌, not, List, ltb, leb, ◌==◌, Result,
  ok, err, require_that, ◌>>=◌, ◌>>◌,
}
use qlyphs_wallet.Prelude.Maps.{pair_key, number_key, text_key, get, set}
use qlyphs_wallet.Refusal.{
  Refusal, unsigned_operation, wrong_byte_length, zero_sender, wrong_genesis, wrong_sequence,
  fee_schedule_not_active, asset_already_exists, symbol_taken, inscription_counter, unknown_asset,
  inscriptions_cannot_be_minted, inscription_amount, progressive_mints_by_right, issuer_only,
  mint_cap_limit, zero_recipient,
}
use qlyphs_wallet.Operations.{
  HexId, Policy, open_mint, issuer, Deploy, ProgressiveDeploy, Operation, deploy, mint, transfer,
  offer, inscribe, deploy_progressive, deploy_progressive_v2, fee_rate, fee_admin, Envelope,
  zero_id, max_u64,
}
use qlyphs_wallet.Fees.State.{FeeRules, FeeState, apply_fee_rate, apply_fee_admin, max_safe, is_id}
use qlyphs_wallet.Progressive.Quote.{
  ProgressiveProfile, v1, v2, progressive_mint_quote, progressive_mint_lots,
}
use qlyphs_wallet.Wire.Bytes.{asset_id}
use qlyphs_wallet.Wire.Calls.{Call}
use qlyphs_wallet.Ledger.Data.{
  State, Asset, AssetDefinition, AssetPolicy, open_policy, issuer_policy, inscription_policy,
  progressive_policy, progressive_v2_policy, MintRight, no_right, anchored, Receipt, Rules,
  inscription_definition, first_inscription, progressive_profile, or_zero,
}
use qlyphs_wallet.Ledger.Change.{change, plus, minus}
use qlyphs_wallet.Ledger.Offers.{absent, lock_offer}

-- A new token under its symbol.
unfoldable pub deploy_asset : State → HexId → ℕ → AssetDefinition → MintRight → Result Refusal State
deploy_asset s owner sequence definition right = do
  id ← asset_id owner sequence
  require_that (absent (get s.assets id)) asset_already_exists
  require_that (absent (get s.symbols definition.symbol)) symbol_taken
  ok (record s {
    symbols = set s.symbols definition.symbol id;
    assets =
        set s.assets id
          (record { creator = owner; definition = definition; minted = 0; right = right });
  })

abbrev policy_of : Policy → AssetPolicy
policy_of open_mint = open_policy
policy_of issuer = issuer_policy

abbrev definition_of : Deploy → AssetDefinition
definition_of p = record {
  symbol = p.symbol;
  decimals = p.decimals;
  cap = p.cap;
  limit = p.limit;
  policy = policy_of p.policy;
}

abbrev progressive_policy_of : ProgressiveProfile → AssetPolicy
progressive_policy_of v1 = progressive_policy
progressive_policy_of v2 = progressive_v2_policy

unfoldable pub deploy_lots :
    State → Receipt → HexId → ℕ → ProgressiveDeploy → ProgressiveProfile → Result Refusal State
deploy_lots s r owner sequence p profile = progressive_mint_quote p.cap 0 profile >>= λ quote.
    deploy_asset s owner sequence
      (record {
        symbol = p.symbol;
        decimals = p.decimals;
        cap = p.cap;
        limit = p.cap / progressive_mint_lots;
        policy = progressive_policy_of profile;
      })
      (anchored (record { height = s.height; hash = s.hash; index = r.index }))

unfoldable pub inscribe_asset : State → Receipt → HexId → ℕ → List ℕ → List ℕ → Result Refusal State
inscribe_asset s r owner sequence content_type content = do
  id ← asset_id owner sequence
  require_that (absent (get s.assets id)) asset_already_exists
  let number = s.next_inscription
  require_that (leb number max_safe && leb first_inscription number) inscription_counter
  let created = record s {
    assets = set s.assets id (record {
      creator = owner;
      definition = inscription_definition;
      minted = 1;
      right = no_right;
    });
  }
  held ← change created id owner (plus 1)
  ok (record held {
    inscriptions = set held.inscriptions id (record {
      id = id;
      number = number;
      creator = owner;
      content_type = content_type;
      content = content;
      height = s.height;
      index = r.index;
    });
    next_inscription = number + 1;
  })

abbrev pub is_open : AssetPolicy → Bool
is_open open_policy = true
is_open _ = false

abbrev pub is_inscription : AssetPolicy → Bool
is_inscription inscription_policy = true
is_inscription _ = false

unfoldable pub mint_asset : State → HexId → HexId → Asset → ℕ → Result Refusal State
mint_asset s owner asset a amount = do
  require_that (not (is_inscription a.definition.policy)) inscriptions_cannot_be_minted
  require_that (absent (progressive_profile a.definition.policy)) progressive_mints_by_right
  require_that (is_open a.definition.policy || a.creator == owner) issuer_only
  require_that (leb amount a.definition.limit && leb (a.minted + amount) a.definition.cap)
      mint_cap_limit
  change (record s { assets = set s.assets asset (record a { minted = a.minted + amount }) }) asset
      owner (plus amount)

-- An inscription moves whole.
abbrev pub whole_inscription : Asset → ℕ → Bool
whole_inscription a amount = not (is_inscription a.definition.policy) || amount == 1

unfoldable pub transfer_asset : State → HexId → HexId → Asset → ℕ → HexId → Result Refusal State
transfer_asset s owner asset a amount to = do
  require_that (whole_inscription a amount) inscription_amount
  require_that (not (to == zero_id)) zero_recipient
  sent ← change s asset owner (minus amount)
  change sent asset to (plus amount)

abbrev pub known : Option Asset → Result Refusal Asset
known none = err unknown_asset
known (some a) = ok a

abbrev pub known_asset : State → HexId → Result Refusal Asset
known_asset s asset = known (get s.assets asset)

-- The fee schedule's operations, where a schedule and its state are there.
abbrev pub govern_with :
    State
    → (FeeRules → FeeState → Result Refusal FeeState)
    → Option FeeState
    → Option FeeRules
    → Result Refusal State
govern_with s act (some f) (some schedule) =
    act schedule f >>= λ next. ok (record s { fees = some next })
govern_with s act _ _ = err fee_schedule_not_active

abbrev govern :
    State → Rules → (FeeRules → FeeState → Result Refusal FeeState) → Result Refusal State
govern s rules act = govern_with s act s.fees rules.fee_schedule

unfoldable pub apply_kind :
    State → Receipt → HexId → ℕ → Operation → Call → Rules → Result Refusal State
apply_kind s r owner sequence (fee_rate effective rate) call rules =
    govern s rules (λ schedule f. apply_fee_rate f schedule owner effective rate s.height r.index)
apply_kind s r owner sequence (fee_admin p) call rules =
    govern s rules (λ schedule f. apply_fee_admin f schedule owner p s.height)
apply_kind s r owner sequence (deploy_progressive p) call rules =
    deploy_lots s r owner sequence p v1
apply_kind s r owner sequence (deploy_progressive_v2 p) call rules =
    deploy_lots s r owner sequence p v2
apply_kind s r owner sequence (deploy p) call rules =
    deploy_asset s owner sequence (definition_of p) no_right
apply_kind s r owner sequence (inscribe content_type content) call rules =
    inscribe_asset s r owner sequence content_type content
apply_kind s r owner sequence (mint asset amount) call rules =
    known_asset s asset >>= λ a. mint_asset s owner asset a amount
apply_kind s r owner sequence (transfer asset amount to) call rules =
    known_asset s asset >>= λ a. transfer_asset s owner asset a amount to
apply_kind s r owner sequence (offer p) call rules = known_asset s p.asset >>= λ a.
    require_that (whole_inscription a p.amount) inscription_amount >> lock_offer s r owner p call

-- `applyOperation` by the signer of its receipt.
abbrev pub apply_as :
    State → HexId → Receipt → Envelope → Call → Rules → Option HexId → Result Refusal State
apply_as s genesis r e call rules none = err unsigned_operation
apply_as s genesis r e call rules (some owner) = do
  require_that (is_id owner) wrong_byte_length
  require_that (not (owner == zero_id)) zero_sender
  require_that (e.genesis == genesis) wrong_genesis
  require_that (e.sequence == or_zero (get s.sequences owner) && ltb e.sequence max_u64)
      wrong_sequence
  next ← apply_kind s r owner e.sequence e.op call rules
  ok (record next { sequences = set next.sequences owner (e.sequence + 1) })

unfoldable pub apply_operation :
    State → HexId → Receipt → Envelope → Call → Rules → Result Refusal State
apply_operation s genesis r e call rules = apply_as s genesis r e call rules r.signer
