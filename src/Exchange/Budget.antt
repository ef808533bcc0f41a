-- ===== src/Exchange/Budget.antt =====
-- What the search of packages/shared/src/swap.ts finds for a budget.
use qlyphs_wallet.Prelude.{
  ℕ, zero, suc, ◌+◌, ◌-◌, ◌*◌, ◌/◌, ◌%◌, ◌≤◌, ◌≡◌, refl, sym, subst, arith, true, false, leb, ◌==◌,
  List, Option, none, some, Bool-cases, inl, inr, leb→le, Result, ok, err,
}
use qlyphs_wallet.Exchange.Amounts.{MoneyFault, quote_total}
use qlyphs_wallet.Exchange.Swap.{
  filled, SwapBookLevel, SwapFill, SwapLimits, swap_fill_for_amount, swap_fill_for_budget,
  budget_search, fits, fill_of, swap_price, large_enough, swap_amount_step, max_swap_amount, depth,
}

filled-amount :
    (amount price : ℕ) (r : Result MoneyFault ℕ) {f : SwapFill}
    → filled amount price r ≡ some f
    → f.amount ≡ amount
filled-amount amount price (err e) h = cc
filled-amount amount price (ok total) h = cc

fill_of-amount :
    (amount : ℕ) (price : Option ℕ) {f : SwapFill}
    → fill_of amount price ≡ some f
    → f.amount ≡ amount
fill_of-amount amount none h = cc
fill_of-amount amount (some p) h = filled-amount amount p (quote_total amount p) h

module _ (asks : List SwapBookLevel) (budget markup top : ℕ) where
  -- A fill of whole steps that the budget pays for.
  abbrev pub Affordable : Option SwapFill → Type 0
  Affordable none = 0 ≤ 0
  Affordable (some f) =
      (f.total ≤ budget)
      × (k : ℕ) × (1 ≤ k)
      × (k ≤ top)
      × (swap_fill_for_amount asks (k * swap_amount_step) markup ≡ some f)

  fits-Affordable :
      (o : Option SwapFill) (k : ℕ)
      → 1 ≤ k
      → k ≤ top
      → swap_fill_for_amount asks (k * swap_amount_step) markup ≡ o
      → fits budget o ≡ true
      → Affordable o
  fits-Affordable none k h1 h2 h f = omega arith
  fits-Affordable (some x) k h1 h2 h f = (leb→le x.total budget f, k, h1, h2, h)

  search-Affordable :
      (fuel low high : ℕ) (best : Option SwapFill)
      → 1 ≤ low
      → high ≤ top
      → high + 1 ≤ fuel + low
      → Affordable best
      → (r : Option SwapFill) × (budget_search fuel asks budget markup low high best ≡ some r)
        × Affordable r
  unfolding budget_search
  search-Affordable zero low high best h1 h2 h3 good = (best, ground arith, good)
  search-Affordable (suc fuel) low high best h1 h2 h3 good = elim (Bool-cases (leb low high)) [
    | inr out ↦ (best, rw out refl, good)
    | inl within ↦
        let between = leb→le low high within in
        elim (Bool-cases
          (fits budget (swap_fill_for_amount asks ((low + high) / 2 * swap_amount_step) markup))) [
            | inl f ↦
                let found =
                  search-Affordable fuel ((low + high) / 2 + 1) high
                    (swap_fill_for_amount asks ((low + high) / 2 * swap_amount_step) markup)
                    (omega arith) h2 (omega (arith, between))
                    (fits-Affordable _ ((low + high) / 2) (omega (arith, between))
                      (omega (arith, between)) refl f) in
                (found.0, rw (within, f) found.1, found.2)
            | inr f ↦
                let found =
                  search-Affordable fuel low ((low + high) / 2 - 1) best h1 (omega (arith, between))
                    (omega (arith, between)) good in
                (found.0, rw (within, f) found.1, found.2)
          ]
  ]

-- The amount fits the limits and the book.
abbrev pub Bought : List SwapBookLevel → ℕ → SwapLimits → Option SwapFill → Type 0
Bought asks budget limits none = 0 ≤ 0
Bought asks budget limits (some f) =
    (f.total ≤ budget)
    × (limits.min_amount ≤ f.amount)
    × (f.amount ≤ limits.max_amount)
    × (f.amount ≤ depth asks)
    × (f.amount % swap_amount_step ≡ 0)
    × (swap_fill_for_amount asks f.amount limits.markup_bps ≡ some f)

max_swap_amount_bounds :
    (asks : List SwapBookLevel) (limits : SwapLimits)
    → (max_swap_amount asks limits ≤ limits.max_amount) × (max_swap_amount asks limits ≤ depth asks)
unfolding max_swap_amount
max_swap_amount_bounds asks limits = (ground arith, ground arith)

large_enough-some :
    (limits : SwapLimits) (f : SwapFill)
    → leb limits.min_amount f.amount ≡ true
    → large_enough limits (some f) ≡ some f
large_enough-some limits f e = rw e refl

large_enough-none :
    (limits : SwapLimits) (f : SwapFill)
    → leb limits.min_amount f.amount ≡ false
    → large_enough limits (some f) ≡ none
large_enough-none limits f e = rw e refl

Affordable-Bought :
    (asks : List SwapBookLevel) (budget : ℕ) (limits : SwapLimits) (o : Option SwapFill)
    → Affordable asks budget limits.markup_bps (max_swap_amount asks limits / swap_amount_step) o
    → Bought asks budget limits (large_enough limits o)
unfolding swap_fill_for_amount
Affordable-Bought asks budget limits none h = omega arith
Affordable-Bought asks budget limits (some f) h =
    elim (Bool-cases (leb limits.min_amount f.amount)) [
      | inr e ↦ subst (Bought asks budget limits) (sym (large_enough-none limits f e)) (omega arith)
      | inl e ↦
          let size =
            fill_of-amount (h.1 * swap_amount_step)
              (swap_price asks (h.1 * swap_amount_step) limits.markup_bps) h.4 in
          let bounds = max_swap_amount_bounds asks limits in
          subst (Bought asks budget limits) (sym (large_enough-some limits f e)) (
            h.0,
            leb→le limits.min_amount f.amount e,
            omega (arith, size, h.3, bounds.0),
            omega (arith, size, h.3, bounds.1),
            omega (arith, size),
            subst (λ n. swap_fill_for_amount asks n limits.markup_bps ≡ some f) (sym size) h.4,
          )
    ]

-- For every book, budget and limits the search ends within its fuel, and what it finds, when it finds
-- a fill, is the fill of its amount, costs at most the budget, is a whole number of steps, and lies
-- between the minimum amount and both the maximum amount and the depth of the book.
pub swap_fill_for_budget-Bought :
    (asks : List SwapBookLevel) (budget : ℕ) (limits : SwapLimits)
    → (r : Option SwapFill) × (swap_fill_for_budget asks budget limits ≡ some r)
      × Bought asks budget limits r
unfolding swap_fill_for_budget
swap_fill_for_budget-Bought asks budget limits = elim (Bool-cases (budget == 0)) [
  | inl e ↦ (none, rw e refl, omega arith)
  | inr e ↦
      let top = max_swap_amount asks limits / swap_amount_step in
      let found =
        search-Affordable asks budget limits.markup_bps top top 1 top none (omega arith)
          (omega arith) (omega arith) (omega arith) in
      (
        large_enough limits found.0,
        rw (e, found.1) refl,
        Affordable-Bought asks budget limits found.0 found.2,
      )
]
