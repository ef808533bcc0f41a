-- ===== src/Fees/Exact.antt =====
-- Fees are exact: a canonical rate has at most three significant digits, so no fee is rounded.
use Prim.Native.Nat.{◌∣◌}
use native.Mathlib.Nat.{pow-suc, dvd_trans, dvd-mul_left, dvd_of_mod-eq-zero, mod-eq-zero_of_dvd}
use native.Mathlib.Numerals.{towards_suc}
use qlyphs_wallet.Prelude.{
  ℕ, zero, suc, true, ◌+◌, ◌-◌, ◌*◌, ◌/◌, ◌%◌, ◌^◌, ◌≤◌, ◌≡◌, >>=-eq-ok, refl, ◌∙◌, arith, ok, inl,
  inr, Bool-cases, ltb, ltb→lt, ap, max,
}
use qlyphs_wallet.Operations.{Operation}
use qlyphs_wallet.Fees.Rate.{
  ed, rate_min, rate_max, digits_from, digits, check_rate, require_rate, fee_at, fee, cents_for,
  is_rate_derived,
}

pow_pos : (k : ℕ) → 1 ≤ 10 ^ k
pow_pos zero = omega arith
pow_pos (suc k) = omega (arith, pow-suc 10 k, pow_pos k)

-- A number of at least k + 1 digits prints as many.
digits_from-lower : (fuel n k : ℕ) → n ≤ fuel → 10 ^ k ≤ n → suc k ≤ digits_from fuel n
unfolding digits_from
digits_from-lower zero n zero h p = omega arith
digits_from-lower zero n (suc k) h p = absurd (omega (arith, pow_pos (suc k)))
digits_from-lower (suc fuel) n zero h p = ground arith
digits_from-lower (suc fuel) n (suc k) h p =
    let e : 10 ^ suc k ≡ 10 ^ k * 10 = pow-suc 10 k in
    elim (Bool-cases (ltb n 10)) [
      | inl small ↦ absurd (omega (arith, ltb→lt n 10 small, pow_pos k))
      | inr big ↦
          rw big (omega (arith, digits_from-lower fuel (n / 10) k (ground arith) (omega arith)))
    ]

ten_to_the : (m : ℕ) → 10 ^ (m + 6) ≡ 10 ^ m * 1_000_000
ten_to_the m = simp towards_suc (omega arith)

million_divides : (j : ℕ) → 6 ≤ j → 1_000_000 ∣ 10 ^ j
million_divides j h =
    let e : j ≡ (j - 6) + 6 = omega arith in
    rw e (rw ten_to_the (dvd-mul_left 1_000_000 (10 ^ (j - 6))))

-- A canonical rate has at least nine digits, so it ends in six zeros.
pub check_rate-million : (r : ℕ) → check_rate r ≡ true → r % 1_000_000 ≡ 0
check_rate-million r h =
    let nine : 9 ≤ digits r =
      unfold digits in digits_from-lower r r 8 (omega arith) (unfold check_rate in ground arith) in
    let zero' : r % 10 ^ (digits r - 3) ≡ 0 = unfold check_rate in ground arith in
    mod-eq-zero_of_dvd _
      (dvd_trans _ (million_divides (digits r - 3) (omega arith)) (dvd_of_mod-eq-zero _ zero'))

-- The bounds of a canonical rate.
pub check_rate_bounds : (r : ℕ) → check_rate r ≡ true → (rate_min ≤ r) × (r ≤ rate_max)
unfolding check_rate
check_rate_bounds r h = ground arith

check_rate-require : (r : ℕ) → check_rate r ≡ true → require_rate r ≡ ok tt
unfolding check_rate require_rate
check_rate-require r h = ground arith

-- At a canonical rate a fee target is priced with no rounding: the price in base units is a whole
-- number, and the fee is that number or the existential deposit.
pub fee_at_exact :
    (cents rate : ℕ)
    → check_rate rate ≡ true
    → (fee_at cents rate ≡ ok (max ed (cents * (rate / 100))))
      × (100 * (cents * (rate / 100)) ≡ cents * rate)
fee_at_exact cents rate h =
    let whole : rate ≡ 100 * (rate / 100) = omega (arith, check_rate-million rate h) in
    let exact : 100 * (cents * (rate / 100)) ≡ cents * rate =
      omega (arith, ap (λ (t : ℕ). cents * t) whole) in
    let price : cents * rate / 100 ≡ cents * (rate / 100) = omega arith in
    (unfold fee_at in rw (check_rate-require rate h) (ground arith), exact)

cents_for-ok :
    (op : Operation) {c : ℕ} → cents_for op ≡ ok c → (is_rate_derived op ≡ true) × (c ≡ 2_500)
unfolding cents_for is_rate_derived
cents_for-ok op h = ground arith

fee_at-ok :
    (cents rate : ℕ) {f : ℕ}
    → fee_at cents rate ≡ ok f
    → (check_rate rate ≡ true) × (f ≡ max ed (cents * rate / 100))
unfolding fee_at require_rate check_rate
fee_at-ok cents rate h = ground arith

-- Any fee that the schedule names is that of a rate-derived operation at a canonical rate, is 25 USD
-- at that rate, and lies between 0.005 and 5 QTC.
pub fee_price :
    (op : Operation) (rate : ℕ) {f : ℕ}
    → fee op rate ≡ ok f
    → (is_rate_derived op ≡ true)
      × (check_rate rate ≡ true)
      × (f ≡ 25 * rate)
      × (5_000_000_000 ≤ f)
      × (f ≤ 5_000_000_000_000)
unfolding fee
fee_price op rate {f} h =
    let (c, e, k) = >>=-eq-ok (cents_for op) (λ cents. fee_at cents rate) h in
    let (derived, target) = cents_for-ok op e in
    let (canonical, price) = fee_at-ok c rate k in
    let bounds = check_rate_bounds rate canonical in
    let price' : f ≡ max ed (2_500 * rate / 100) = price ∙ rw target refl in
    (derived, canonical, omega arith, omega arith, omega arith)
