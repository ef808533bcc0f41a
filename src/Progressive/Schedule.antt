-- ===== src/Progressive/Schedule.antt =====
-- The whole sale of a progressive asset under packages/native/src/progressive-mint.ts: the lots minted
-- one after the other, each at the fee that its quote asks for.
use native.Mathlib.Nat.{mul-div_left, mul-mod_left, mul-le-mul_right}
use qlyphs_wallet.Prelude.{
  ℕ, zero, suc, ◌+◌, ◌-◌, ◌*◌, ◌/◌, ◌%◌, ◌<◌, ◌≤◌, none, some, true, ◌≡◌, refl, ap, subst, ◌∙◌,
  arith, ==-refl, lt→ltb, le→leb, ◌==◌, Result, ok, err, ◌>>=◌, get_elem?,
}
use qlyphs_wallet.Refusal.{Refusal, mint_sold_out}
use qlyphs_wallet.Operations.{max_u128}
use qlyphs_wallet.Progressive.Quote.{
  ProgressiveProfile, v1, v2, progressive_mint_lots, lots_per_tier, fees_of, tier_fee, next_lot_fee,
  progressive_mint_total_fee, progressive_mint_total_fee_v2, progressive_mint_quote,
  require_progressive_mint,
}

-- `n` lots bought one after the other, each for one lot of the supply: what is minted then, and the
-- fees paid.
pub record Sale : Type 0 where
  pub minted : ℕ
  pub fees : ℕ

abbrev pub buy_lots : ℕ → ℕ → ℕ → ProgressiveProfile → Result Refusal Sale
buy_lots zero cap minted profile = ok (record { minted = minted; fees = 0 })
buy_lots (suc n) cap minted profile =
    require_progressive_mint cap minted (cap / progressive_mint_lots) profile >>= λ bought.
    buy_lots n cap (minted + bought.amount) profile >>= λ rest.
    ok (record { minted = rest.minted; fees = bought.fee + rest.fees })

abbrev pub total_fee : ProgressiveProfile → ℕ
total_fee v1 = progressive_mint_total_fee
total_fee v2 = progressive_mint_total_fee_v2

-- The fee of the tier of a lot, counted from zero.
abbrev fee_of_lot : ProgressiveProfile → ℕ → ℕ
fee_of_lot p k = elim (get_elem? (fees_of p) (k / lots_per_tier)) [ none ↦ 0 | some fee ↦ fee ]

abbrev fees_from : ProgressiveProfile → ℕ → ℕ → ℕ
fees_from p k zero = 0
fees_from p k (suc n) = fee_of_lot p k + fees_from p (k + 1) n

all_fees : (p : ProgressiveProfile) → fees_from p 0 1000 ≡ total_fee p
unfolding fees_of
all_fees v1 = refl
all_fees v2 = refl

tier_fee_lem :
    (p : ProgressiveProfile) (t : ℕ)
    → t < 5
    → tier_fee p t ≡ ok (elim (get_elem? (fees_of p) t) [ none ↦ 0 | some fee ↦ fee ])
unfolding fees_of
tier_fee_lem v1 t h = ground arith
tier_fee_lem v2 t h = ground arith

thousandth : (size : ℕ) → 1000 * size / 1000 ≡ size
thousandth size = omega arith

thousands : (size : ℕ) → (1000 * size % 1000 == 0) ≡ true
thousands size = ground arith

add_zero : (k : ℕ) → k + 0 ≡ k
add_zero k = omega arith

next_lot : (k size : ℕ) → k * size + size ≡ (k + 1) * size
next_lot k size = grind arith

no_lots : (size : ℕ) → 0 * size ≡ 0
no_lots size = omega arith

shift : (k n : ℕ) → k + 1 + n ≡ k + suc n
shift k n = omega arith

whole : (cap : ℕ) → cap % 1000 ≡ 0 → 1000 * (cap / 1000) ≡ cap
whole cap h = omega arith

module _ (size : ℕ) (h0 : 0 < size) (hm : 1000 * size ≤ max_u128) where
  next_fee_lem :
      (p : ProgressiveProfile) (k : ℕ) → k < 1000 → next_lot_fee p k ≡ ok (some (fee_of_lot p k))
  unfolding fees_of
  next_fee_lem p k hk = rw (lt→ltb k 1000 hk, tier_fee_lem p (k / 200) (omega arith))

  quote_lem :
      (p : ProgressiveProfile) (k : ℕ)
      → k < 1000
      → progressive_mint_quote (1000 * size) (k * size) p
        ≡ ok (record {
          profile = p;
          lot_size = size;
          minted_lots = k;
          remaining_lots = 1000 - k;
          next_fee = some (fee_of_lot p k);
        })
  unfolding progressive_mint_quote
  quote_lem p k hk = rw (
    lt→ltb 0 (1000 * size) (omega arith),
    le→leb (1000 * size) max_u128 hm,
    thousands size,
    le→leb (k * size) (1000 * size) (mul-le-mul_right size (omega arith)),
    thousandth size,
    mul-mod_left k size,
    mul-div_left k h0,
    next_fee_lem p k hk,
  )

  lot_lem :
      (p : ProgressiveProfile) (k : ℕ)
      → k < 1000
      → require_progressive_mint (1000 * size) (k * size) (1000 * size / 1000) p
        ≡ ok (record { profile = p; lot = k + 1; amount = size; fee = fee_of_lot p k })
  unfolding require_progressive_mint
  lot_lem p k hk = rw (quote_lem p k hk, thousandth size, lt→ltb 0 size h0, ==-refl size)

  sale_lem :
      (p : ProgressiveProfile) (n k : ℕ)
      → k + n ≤ 1000
      → buy_lots n (1000 * size) (k * size) p
        ≡ ok (record { minted = (k + n) * size; fees = fees_from p k n })
  sale_lem p zero k h = rw (add_zero k)
  sale_lem p (suc n) k h =
      rw (lot_lem p k (omega arith), next_lot k size, sale_lem p n (k + 1) (omega arith), shift k n)

  whole_sale_lem :
      (p : ProgressiveProfile)
      → buy_lots 1000 (1000 * size) 0 p ≡ ok (record { minted = 1000 * size; fees = total_fee p })
  whole_sale_lem p =
      subst
        (λ z.
          buy_lots 1000 (1000 * size) z p
          ≡ ok (record { minted = 1000 * size; fees = total_fee p }))
        (no_lots size)
        (sale_lem p 1000 0 (omega arith)
          ∙ ap (λ f. ok (record { minted = 1000 * size; fees = f })) (all_fees p))

  sold_out_lem :
      (p : ProgressiveProfile) (amount : ℕ)
      → require_progressive_mint (1000 * size) (1000 * size) amount p ≡ err mint_sold_out
  unfolding require_progressive_mint progressive_mint_quote
  sold_out_lem p amount = rw (
    lt→ltb 0 (1000 * size) (omega arith),
    le→leb (1000 * size) max_u128 hm,
    thousands size,
    le→leb (1000 * size) (1000 * size) (omega arith),
    thousandth size,
    mul-mod_left 1000 size,
    mul-div_left 1000 h0,
  )

-- For every supply of a thousand equal lots, a thousand lots can be bought one after the other: they
-- mint exactly the supply, their fees add up to the profile's published total, and after them no lot
-- of any amount can be minted.
pub sale_total :
    (cap : ℕ) (p : ProgressiveProfile)
    → 0 < cap
    → cap ≤ max_u128
    → cap % 1000 ≡ 0
    → (buy_lots 1000 cap 0 p ≡ ok (record { minted = cap; fees = total_fee p }))
      × ((amount : ℕ) → require_progressive_mint cap cap amount p ≡ err mint_sold_out)
sale_total cap p h0 hm h =
    subst
      (λ c.
        (buy_lots 1000 c 0 p ≡ ok (record { minted = c; fees = total_fee p }))
        × ((amount : ℕ) → require_progressive_mint c c amount p ≡ err mint_sold_out))
      (whole cap h)
      (let small : 1000 * (cap / 1000) ≤ max_u128 = omega (arith, whole cap h) in
        let positive : 0 < cap / 1000 = omega (arith, whole cap h) in
        (whole_sale_lem (cap / 1000) positive small p, sold_out_lem (cap / 1000) positive small p))
