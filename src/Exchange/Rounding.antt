-- ===== src/Exchange/Rounding.antt =====
-- How packages/shared/src/money.ts rounds.
use native.Mathlib.Nat.{mul-le-mul_left}
use qlyphs_wallet.Prelude.{
  ℕ, ◌+◌, ◌-◌, ◌*◌, ◌/◌, ◌%◌, ◌≤◌, ◌<◌, ◌≡◌, refl, arith, leb, ok, >>=-eq-ok, require_that-eq-ok,
  ok-inj, leb→le, subst,
}
use qlyphs_wallet.Exchange.Amounts.{
  quote_total, div_round_half_up, fee_for, trade_amounts, TradeAmounts, bps_denominator,
  fee_bps_out_of_range,
}

-- The quote of an amount at a price always exists, is a whole number of cents, and is the nearest one:
-- less than half a cent below the exact value, and at most half a cent above it, so that a half is
-- rounded up.
pub quote_total_nearest :
    (amount price : ℕ)
    → (total : ℕ) × (quote_total amount price ≡ ok total)
      × (total % 10_000 ≡ 0)
      × (amount * price < total * 1_000_000_000_000 + 5_000_000_000_000_000)
      × (total * 1_000_000_000_000 ≤ amount * price + 5_000_000_000_000_000)
unfolding quote_total div_round_half_up
quote_total_nearest amount price = (
  (amount * price + 5_000_000_000_000_000) / 10_000_000_000_000_000 * 10_000,
  refl,
  omega arith,
  omega arith,
  omega arith,
)

fee_bound : (amount bps : ℕ) → bps ≤ 10_000 → amount * bps / 10_000 ≤ amount
fee_bound amount bps h = omega (arith, mul-le-mul_left amount h)

-- The amounts of a trade, whenever they can be computed: the fee is the exact share rounded down, the
-- buyer's part and the fee add up to the amount, and the quote is that of the amount and the price.
pub trade_amounts_split :
    (amount price bps : ℕ) {t : TradeAmounts}
    → trade_amounts amount price bps ≡ ok t
    → (t.fee + t.received ≡ amount)
      × (t.fee * 10_000 ≤ amount * bps)
      × (amount * bps < (t.fee + 1) * 10_000)
      × (quote_total amount price ≡ ok t.quote)
unfolding trade_amounts fee_for quote_total div_round_half_up
trade_amounts_split amount price bps {t} h =
    let fee = >>=-eq-ok (fee_for amount bps) _ h in
    let share = require_that-eq-ok (leb bps bps_denominator) fee_bps_out_of_range _ fee.1 in
    subst
      (λ z.
        (z.fee + z.received ≡ amount)
        × (z.fee * 10_000 ≤ amount * bps)
        × (amount * bps < (z.fee + 1) * 10_000)
        × (quote_total amount price ≡ ok z.quote))
      {x = record {
        amount = amount;
        price = price;
        quote = (amount * price + 5_000_000_000_000_000) / 10_000_000_000_000_000 * 10_000;
        fee = fee.0;
        received = amount - fee.0;
      }}
      (ok-inj fee.2)
      (
        omega (arith, ok-inj share.1, fee_bound amount bps (leb→le bps 10_000 share.0)),
        omega (arith, ok-inj share.1),
        omega (arith, ok-inj share.1),
        refl,
      )
