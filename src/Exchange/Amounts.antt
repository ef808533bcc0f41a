-- ===== src/Exchange/Amounts.antt =====
-- Money arithmetic of packages/shared/src/money.ts. Amounts are natural numbers, so the refusals of
-- negative amounts have no counterpart.
use qlyphs_wallet.Prelude.{
  ℕ, ◌+◌, ◌-◌, ◌*◌, ◌/◌, ◌%◌, Bool, ◌&&◌, leb, ltb, ◌==◌, Result, ok, require_that, ◌>>=◌, ◌>>◌,
}

pub data MoneyFault : Type 0 where
  denominator_must_be_positive fee_bps_out_of_range : MoneyFault

abbrev pub planck_per_qtc : ℕ
planck_per_qtc = 1_000_000_000_000

abbrev pub cent_micro : ℕ
cent_micro = 10_000

abbrev pub price_tick_micro : ℕ
price_tick_micro = 10_000

abbrev pub bps_denominator : ℕ
bps_denominator = 10_000

abbrev pub is_on_tick : ℕ → Bool
is_on_tick price = price % price_tick_micro == 0

abbrev pub is_valid_price : ℕ → Bool
is_valid_price price = ltb 0 price && is_on_tick price

unfoldable pub div_round_half_up : ℕ → ℕ → Result MoneyFault ℕ
div_round_half_up numerator denominator =
    require_that (ltb 0 denominator) denominator_must_be_positive
    >> ok ((numerator + denominator / 2) / denominator)

unfoldable pub quote_total : ℕ → ℕ → Result MoneyFault ℕ
unfolding div_round_half_up
quote_total amount price =
    div_round_half_up (amount * price) (planck_per_qtc * cent_micro) >>= λ cents.
    ok (cents * cent_micro)

unfoldable pub fee_for : ℕ → ℕ → Result MoneyFault ℕ
fee_for amount bps =
    require_that (leb bps bps_denominator) fee_bps_out_of_range
    >> ok (amount * bps / bps_denominator)

unfoldable pub buyer_receives : ℕ → ℕ → Result MoneyFault ℕ
unfolding fee_for
buyer_receives amount bps = fee_for amount bps >>= λ fee. ok (amount - fee)

pub record TradeAmounts : Type 0 where
  pub amount : ℕ
  pub price : ℕ
  pub quote : ℕ
  pub fee : ℕ
  pub received : ℕ

unfoldable pub trade_amounts : ℕ → ℕ → ℕ → Result MoneyFault TradeAmounts
unfolding fee_for quote_total
trade_amounts amount price bps = fee_for amount bps >>= λ fee. quote_total amount price >>= λ quote.
    ok
      (record { amount = amount; price = price; quote = quote; fee = fee; received = amount - fee })

-- The source's `left > 0n ? left : 0n` of a difference is the subtraction that stops at zero.
abbrev pub available_balance : ℕ → ℕ → ℕ → ℕ
available_balance on_chain existential_deposit fee_reserve =
    on_chain - existential_deposit - fee_reserve

abbrev pub spendable_balance : ℕ → ℕ → ℕ
spendable_balance available reserved = available - reserved
