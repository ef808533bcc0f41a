-- ===== src/Exchange/Tests.antt =====
-- The arithmetic of packages/shared/src at concrete inputs.
use qlyphs_wallet.Prelude.{
  ℕ, ◌+◌, ◌*◌, ◌%◌, ◌≤◌, ◌<◌, ◌≡◌, refl, arith, some, ok, List, [], ◌∷◌, Option, false, ◌⊎◌, inr,
  ◌↔◌,
}
use qlyphs_wallet.Exchange.Amounts.{quote_total, trade_amounts, div_round_half_up, fee_for}
use qlyphs_wallet.Exchange.Rounding.{quote_total_nearest, trade_amounts_split}
use qlyphs_wallet.Exchange.Fill.{
  check_fill, fill_ok, check_fill_iff, take_fills, take_fills-Fillable, Fillable,
}
use qlyphs_wallet.Exchange.Swap.{SwapBookLevel, SwapFill, SwapLimits, swap_fill_for_budget}
use qlyphs_wallet.Exchange.Budget.{swap_fill_for_budget-Bought, Bought}
use qlyphs_wallet.Exchange.Guardrail.{
  evaluate_guardrail, evaluate_guardrail-deserved, DeviationResult, owed, deserved,
}
use qlyphs_wallet.Exchange.Rank.{next_tier, next_tier-Reaches, Reaches}

quote_total_nearest_example :
    (total : ℕ) × (quote_total 1_500_000_000_000 28_400_000 ≡ ok total)
    × (total % 10_000 ≡ 0)
    × (1_500_000_000_000 * 28_400_000 < total * 1_000_000_000_000 + 5_000_000_000_000_000)
    × (total * 1_000_000_000_000 ≤ 1_500_000_000_000 * 28_400_000 + 5_000_000_000_000_000)
quote_total_nearest_example = quote_total_nearest 1_500_000_000_000 28_400_000

trade_amounts_split_example :
    (15_000_000_000 + 1_485_000_000_000 ≡ 1_500_000_000_000)
    × (15_000_000_000 * 10_000 ≤ 1_500_000_000_000 * 100)
    × (1_500_000_000_000 * 100 < (15_000_000_000 + 1) * 10_000)
    × (quote_total 1_500_000_000_000 28_400_000 ≡ ok 42_600_000)
unfolding trade_amounts fee_for quote_total div_round_half_up
trade_amounts_split_example =
    trade_amounts_split 1_500_000_000_000 28_400_000 100
      {t = record {
        amount = 1_500_000_000_000;
        price = 28_400_000;
        quote = 42_600_000;
        fee = 15_000_000_000;
        received = 1_485_000_000_000;
      }}
      refl

check_fill_iff_example :
    (check_fill 4 10 3 ≡ fill_ok) ↔ ((0 < 4) × ((◌≡◌ {A = ℕ} 4 10) ⊎ ((3 ≤ 4) × (4 + 3 ≤ 10))))
check_fill_iff_example = check_fill_iff 4 10 3

take_fills-Fillable_example : Fillable (take_fills (4 ∷ 5 ∷ 3 ∷ []) 10 3) 3
take_fills-Fillable_example = take_fills-Fillable (4 ∷ 5 ∷ 3 ∷ []) 10 3 (inr (omega arith))

abbrev some_asks : List SwapBookLevel
some_asks =
    record { price = 28_000_000; amount = 2_000_000_000 }
    ∷ record { price = 29_000_000; amount = 1_000_000_000 }
    ∷ []

abbrev some_limits : SwapLimits
some_limits = record { markup_bps = 100; min_amount = 1_000_000_000; max_amount = 5_000_000_000 }

swap_fill_for_budget-Bought_example :
    (r : Option SwapFill) × (swap_fill_for_budget some_asks 60_000 some_limits ≡ some r)
    × Bought some_asks 60_000 some_limits r
swap_fill_for_budget-Bought_example = swap_fill_for_budget-Bought some_asks 60_000 some_limits

evaluate_guardrail-deserved_example :
    (d : DeviationResult) × (evaluate_guardrail 7 (some 5) false ≡ ok (owed 7 5 false d))
    × (d.verdict ≡ deserved 7 5)
    × (d.reference ≡ some 5)
evaluate_guardrail-deserved_example = evaluate_guardrail-deserved 6 4 false

next_tier-Reaches_example : Reaches 7 (next_tier 7)
next_tier-Reaches_example = next_tier-Reaches 7
