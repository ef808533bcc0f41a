-- ===== src/Exchange/Swap.antt =====
-- Swap prices and the search for a budget's fill: packages/shared/src/swap.ts. Levels, amounts and
-- totals are natural numbers; `null` is `none`.
use qlyphs_wallet.Prelude.{
  ℕ, zero, suc, ◌+◌, ◌-◌, ◌*◌, ◌/◌, ◌%◌, Bool, false, leb, ltb, ◌==◌, if◌then◌else◌, List, [], ◌∷◌,
  Option, none, some, Result, ok, err,
}
use qlyphs_wallet.Exchange.Amounts.{MoneyFault, price_tick_micro, cent_micro, quote_total}

abbrev pub swap_amount_step : ℕ
swap_amount_step = 1_000_000_000

pub record SwapBookLevel : Type 0 where
  pub price : ℕ
  pub amount : ℕ

pub record SwapFill : Type 0 where
  pub amount : ℕ
  pub price : ℕ
  pub total : ℕ

pub record SwapLimits : Type 0 where
  pub markup_bps : ℕ
  pub min_amount : ℕ
  pub max_amount : ℕ

abbrev pub bps : ℕ
bps = 10_000

-- What is left to fill and the cost so far.
pub record Filling : Type 0 where
  pub left : ℕ
  pub cost : ℕ

-- The loop over the levels, which stops once nothing is left.
unfoldable pub fill_levels : List SwapBookLevel → ℕ → ℕ → Filling
fill_levels [] left cost = record { left = left; cost = cost }
fill_levels (level ∷ asks) left cost =
    let taken = if ltb left level.amount then left else level.amount in
    let rest = fill_levels asks (left - taken) (cost + taken * level.price) in
    if left - taken == 0 then record { left = 0; cost = cost + taken * level.price } else rest

abbrev pub average_of : ℕ → Filling → Option ℕ
average_of amount f = if ltb 0 f.left then none else some ((f.cost + amount - 1) / amount)

unfoldable pub average_fill_cost : List SwapBookLevel → ℕ → Option ℕ
unfolding fill_levels
average_fill_cost asks amount =
    if amount == 0 then none else average_of amount (fill_levels asks amount 0)

-- A cost with the markup, rounded up to the cent.
abbrev pub marked_up : ℕ → ℕ → ℕ
marked_up cost markup_bps =
    ((cost * (bps + markup_bps) + bps - 1) / bps + price_tick_micro - 1)
    / price_tick_micro
    * price_tick_micro

unfoldable pub swap_price : List SwapBookLevel → ℕ → ℕ → Option ℕ
swap_price asks amount markup_bps = elim (average_fill_cost asks amount) [
  | none ↦ none
  | some cost ↦ some (marked_up cost markup_bps)
]

-- `quoteTotal` of natural amounts always returns.
abbrev pub filled : ℕ → ℕ → Result MoneyFault ℕ → Option SwapFill
filled amount price (err e) = none
filled amount price (ok total) = some (record { amount = amount; price = price; total = total })

abbrev pub fill_of : ℕ → Option ℕ → Option SwapFill
fill_of amount none = none
fill_of amount (some price) = filled amount price (quote_total amount price)

unfoldable pub swap_fill_for_amount : List SwapBookLevel → ℕ → ℕ → Option SwapFill
swap_fill_for_amount asks amount markup_bps = fill_of amount (swap_price asks amount markup_bps)

abbrev pub depth : List SwapBookLevel → ℕ
depth [] = 0
depth (level ∷ asks) = level.amount + depth asks

unfoldable pub max_swap_amount : List SwapBookLevel → SwapLimits → ℕ
max_swap_amount asks limits =
    let most = if ltb limits.max_amount (depth asks) then limits.max_amount else depth asks in
    most - most % swap_amount_step

-- `fill !== null && fill.total <= budgetMicro`
abbrev pub fits : ℕ → Option SwapFill → Bool
fits budget none = false
fits budget (some fill) = leb fill.total budget

-- The binary search. `none` is a budget_search that ran out of fuel.
unfoldable pub budget_search :
    ℕ → List SwapBookLevel → ℕ → ℕ → ℕ → ℕ → Option SwapFill → Option (Option SwapFill)
budget_search zero asks budget markup_bps low high best = if leb low high then none else some best
budget_search (suc fuel) asks budget markup_bps low high best =
    let middle = (low + high) / 2 in
    let fill = swap_fill_for_amount asks (middle * swap_amount_step) markup_bps in
    let above = budget_search fuel asks budget markup_bps (middle + 1) high fill in
    let below = budget_search fuel asks budget markup_bps low (middle - 1) best in
    if leb low high then (if fits budget fill then above else below) else some best

abbrev pub large_enough : SwapLimits → Option SwapFill → Option SwapFill
large_enough limits none = none
large_enough limits (some fill) = if leb limits.min_amount fill.amount then some fill else none

-- `swapFillForBudget`, on as much fuel as there are steps to choose from.
unfoldable pub swap_fill_for_budget : List SwapBookLevel → ℕ → SwapLimits → Option (Option SwapFill)
unfolding max_swap_amount
swap_fill_for_budget asks budget limits =
    let high = max_swap_amount asks limits / swap_amount_step in
    if budget == 0
    then some none
    else (elim (budget_search high asks budget limits.markup_bps 1 high none) [
      | none ↦ none
      | some best ↦ some (large_enough limits best)
    ])

pub record BudgetRange : Type 0 where
  pub least : ℕ
  pub most : ℕ

abbrev pub range_of : Option SwapFill → Option SwapFill → Option BudgetRange
range_of (some low) (some high) = some (record { least = low.total; most = high.total })
range_of _ _ = none

unfoldable pub swap_budget_range : List SwapBookLevel → SwapLimits → Option BudgetRange
swap_budget_range asks limits =
    let top = max_swap_amount asks limits in
    if top == 0
    then none
    else if ltb top limits.min_amount
    then none
    else range_of (swap_fill_for_amount asks limits.min_amount limits.markup_bps)
        (swap_fill_for_amount asks top limits.markup_bps)

abbrev pub floor_to_cent : ℕ → ℕ
floor_to_cent micro = micro - micro % cent_micro
