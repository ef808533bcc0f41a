-- ===== src/Progressive/Quote.antt =====
-- Quotes of the progressive mint of packages/native/src/progressive-mint.ts: 1,000 equal lots at five
-- fixed fees.
use qlyphs_wallet.Prelude.{
  ℕ, ◌+◌, ◌-◌, ◌/◌, ◌%◌, Option, none, some, ◌&&◌, List, [], ◌∷◌, ltb, leb, ◌==◌, Result, ok, err,
  require_that, ◌>>=◌, ◌>>◌, get_elem?, if◌then◌else◌,
}
use qlyphs_wallet.Refusal.{
  Refusal, invalid_supply, not_1000_equal_lots, invalid_minted_amount, not_whole_lots,
  invalid_mint_tier, mint_sold_out, invalid_mint_amount, not_one_lot, invalid_lot,
}
use qlyphs_wallet.Operations.{max_u128}

pub data ProgressiveProfile : Type 0 where
  v1 v2 : ProgressiveProfile

abbrev pub progressive_mint_lots : ℕ
progressive_mint_lots = 1000

abbrev pub lots_per_tier : ℕ
lots_per_tier = 200

abbrev pub progressive_mint_total_fee : ℕ
progressive_mint_total_fee = 300_000_000_000_000

abbrev pub progressive_mint_total_fee_v2 : ℕ
progressive_mint_total_fee_v2 = 210_000_000_000_000

unfoldable pub fees_of : ProgressiveProfile → List ℕ
fees_of v1 =
    100_000_000_000 ∷ 200_000_000_000 ∷ 300_000_000_000 ∷ 400_000_000_000 ∷ 500_000_000_000 ∷ []
fees_of v2 =
    10_000_000_000 ∷ 100_000_000_000 ∷ 200_000_000_000 ∷ 300_000_000_000 ∷ 440_000_000_000 ∷ []

pub record ProgressiveMintQuote : Type 0 where
  pub profile : ProgressiveProfile
  pub lot_size : ℕ
  pub minted_lots : ℕ
  pub remaining_lots : ℕ
  pub next_fee : Option ℕ

-- `need(fee !== undefined, 'invalid mint tier')`
abbrev pub tier_fee : ProgressiveProfile → ℕ → Result Refusal ℕ
tier_fee profile tier = elim (get_elem? (fees_of profile) tier) [
  | none ↦ err invalid_mint_tier
  | some fee ↦ ok fee
]

abbrev pub next_lot_fee : ProgressiveProfile → ℕ → Result Refusal (Option ℕ)
next_lot_fee profile minted_lots =
    if ltb minted_lots progressive_mint_lots
    then (tier_fee profile (minted_lots / lots_per_tier) >>= λ fee. ok (some fee))
    else ok none

unfoldable pub progressive_mint_quote :
    ℕ → ℕ → ProgressiveProfile → Result Refusal ProgressiveMintQuote
unfolding fees_of
progressive_mint_quote cap minted profile = do
  require_that (ltb 0 cap && leb cap max_u128) invalid_supply
  require_that (cap % progressive_mint_lots == 0) not_1000_equal_lots
  require_that (leb minted cap) invalid_minted_amount
  let lot_size = cap / progressive_mint_lots
  require_that (minted % lot_size == 0) not_whole_lots
  let minted_lots = minted / lot_size
  next_fee ← next_lot_fee profile minted_lots
  ok (record {
    profile = profile;
    lot_size = lot_size;
    minted_lots = minted_lots;
    remaining_lots = progressive_mint_lots - minted_lots;
    next_fee = next_fee;
  })

pub record LotMint : Type 0 where
  pub profile : ProgressiveProfile
  pub lot : ℕ
  pub amount : ℕ
  pub fee : ℕ

unfoldable pub require_progressive_mint : ℕ → ℕ → ℕ → ProgressiveProfile → Result Refusal LotMint
unfolding progressive_mint_quote
require_progressive_mint cap minted amount profile =
    progressive_mint_quote cap minted profile >>= λ quote. elim quote.next_fee [
      | none ↦ err mint_sold_out
      | some fee ↦
          require_that (ltb 0 amount) invalid_mint_amount
          >> require_that (amount == quote.lot_size) not_one_lot
          >> ok (record {
            profile = quote.profile;
            lot = quote.minted_lots + 1;
            amount = quote.lot_size;
            fee = fee;
          })
    ]

unfoldable pub progressive_lot_fee : ℕ → ProgressiveProfile → Result Refusal ℕ
unfolding fees_of
progressive_lot_fee lot profile =
    require_that (leb 1 lot && leb lot progressive_mint_lots) invalid_lot
    >> tier_fee profile ((lot - 1) / lots_per_tier)
