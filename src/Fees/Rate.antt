-- ===== src/Fees/Rate.antt =====
-- The rates and the fee formula of packages/native/src/fee-schedule.ts, with the blocked tickers of
-- packages/native/src/tickers.ts. An amount is a bigint that is never negative here: a number.
use qlyphs_wallet.Prelude.{
  ℕ, zero, suc, ◌-◌, ◌*◌, ◌/◌, ◌%◌, ◌^◌, Option, none, some, Bool, true, false, ◌&&◌, ◌||◌, List,
  [], ◌∷◌, ltb, leb, ◌==◌, if◌then◌else◌, Result, ok, err, require_that, ◌>>=◌, ◌>>◌, length, every,
  any_of, codes, same_text,
}
use qlyphs_wallet.Refusal.{
  Refusal, invalid_symbol, symbol_blocked, mint_fee_not_rate_derived, rate_out_of_bounds,
  rate_not_canonical,
}
use qlyphs_wallet.Operations.{
  Operation, deploy, mint, inscribe, deploy_progressive, deploy_progressive_v2,
}

abbrev pub ed : ℕ
ed = 1_000_000_000

abbrev pub rate_min : ℕ
rate_min = 200_000_000

abbrev pub rate_max : ℕ
rate_max = 200_000_000_000

abbrev pub step_num : ℕ
step_num = 5

abbrev pub step_den : ℕ
step_den = 4

abbrev pub legacy_deploy_fee : ℕ
legacy_deploy_fee = 1_000_000_000_000

abbrev pub legacy_inscribe_fee : ℕ
legacy_inscribe_fee = 100_000_000_000

-- `FEE_TARGETS_CENTS`, the same for both classes.
abbrev pub deploy_cents : ℕ
deploy_cents = 2_500

abbrev pub inscribe_cents : ℕ
inscribe_cents = 2_500

-- The number of decimal digits that `toString` prints: one more for each division by ten that
-- leaves something. The fuel `n` is more than the divisions that are made.
unfoldable pub digits_from : ℕ → ℕ → ℕ
digits_from zero n = 1
digits_from (suc fuel) n =
    let more = suc (digits_from fuel (n / 10)) in if ltb n 10 then 1 else more

unfoldable pub digits : ℕ → ℕ
unfolding digits_from
digits n = digits_from n n

-- Why a rate is refused, or none.
unfoldable pub rate_error : ℕ → Option Refusal
rate_error r =
    if ltb r rate_min || ltb rate_max r
    then some rate_out_of_bounds
    else if r % 10 ^ (digits r - 3) == 0
    then none
    else some rate_not_canonical

unfoldable pub check_rate : ℕ → Bool
unfolding rate_error
check_rate r = elim (rate_error r) [ none ↦ true | some e ↦ false ]

-- `requireThat(error === null, error ?? '')`
unfoldable pub require_rate : ℕ → Result Refusal (Unit {0})
require_rate r = elim (rate_error r) [ none ↦ ok tt | some e ↦ err e ]

abbrev pub blocked : List (List ℕ)
blocked =
    codes "BTC" ∷ codes "ETH" ∷ codes "QLYPHS" ∷ codes "QTC" ∷ codes "USDC" ∷ codes "USDT" ∷ []

-- The pattern /^[A-Z0-9]{1,12}$/.
unfoldable pub is_symbol : List ℕ → Bool
is_symbol s =
    leb 1 (length s)
    && leb (length s) 12
    && every (λ c. (leb b'A' c && leb c b'Z') || (leb b'0' c && leb c b'9')) s

unfoldable pub is_blocked : List ℕ → Bool
is_blocked s = any_of (same_text s) blocked

pub data SymbolClass : Type 0 where
  blocked_symbol allowed : SymbolClass

unfoldable pub symbol_class : List ℕ → Result Refusal SymbolClass
unfolding is_symbol is_blocked
symbol_class s = do
  require_that (is_symbol s) invalid_symbol
  ok (if is_blocked s then blocked_symbol else allowed)

-- `requireThat(symbolClass(symbol) === 'allowed', 'symbol blocked')`
unfoldable pub require_allowed : List ℕ → Result Refusal (Unit {0})
unfolding symbol_class
require_allowed s = do
  class ← symbol_class s
  elim class [ allowed ↦ ok tt | blocked_symbol ↦ err symbol_blocked ]

unfoldable pub is_rate_derived : Operation → Bool
is_rate_derived (deploy d) = true
is_rate_derived (inscribe t c) = true
is_rate_derived (deploy_progressive d) = true
is_rate_derived (deploy_progressive_v2 d) = true
is_rate_derived _ = false

unfoldable pub is_fee_bearing : Operation → Bool
unfolding is_rate_derived
is_fee_bearing (mint a n) = true
is_fee_bearing op = is_rate_derived op

-- The USD target of an operation, in cents.
unfoldable pub cents_for : Operation → Result Refusal ℕ
cents_for (deploy d) = do require_allowed d.symbol; ok deploy_cents
cents_for (deploy_progressive d) = do require_allowed d.symbol; ok deploy_cents
cents_for (deploy_progressive_v2 d) = do require_allowed d.symbol; ok deploy_cents
cents_for (inscribe t c) = ok inscribe_cents
cents_for _ = err mint_fee_not_rate_derived

-- max(ED, cents * rate / 100)
unfoldable pub fee_at : ℕ → ℕ → Result Refusal ℕ
fee_at cents rate = do
  require_rate rate
  ok (let f = cents * rate / 100 in if ltb ed f then f else ed)

unfoldable pub fee : Operation → ℕ → Result Refusal ℕ
fee op rate = do cents ← cents_for op; fee_at cents rate

unfoldable pub legacy_fee : Operation → Result Refusal ℕ
unfolding is_rate_derived
legacy_fee (inscribe t c) = ok legacy_inscribe_fee
legacy_fee op = if is_rate_derived op then ok legacy_deploy_fee else err mint_fee_not_rate_derived
