-- ===== src/Exchange/Fill.antt =====
-- `checkFill` of packages/shared/src/money.ts: partial fills of an offer.
use qlyphs_wallet.Prelude.{
  ℕ, ◌+◌, ◌-◌, ◌≤◌, ◌<◌, ◌≡◌, refl, arith, ltb, ◌==◌, if◌then◌else◌, List, [], ◌∷◌, ◌⊎◌, inl, inr,
  ◌↔◌, Bool-cases, ==→eq,
}

pub data FillErrorCode : Type 0 where
  amount_not_positive exceeds_remaining below_min_fill leaves_dust : FillErrorCode

pub data FillCheck : Type 0 where
  fill_ok : FillCheck
  fill_refused : FillErrorCode → FillCheck

unfoldable pub check_fill : ℕ → ℕ → ℕ → FillCheck
check_fill amount remaining min_fill =
    if amount == 0
    then fill_refused amount_not_positive
    else if ltb remaining amount
    then fill_refused exceeds_remaining
    else if amount == remaining
    then fill_ok
    else if ltb amount min_fill
    then fill_refused below_min_fill
    else if ltb (remaining - amount) min_fill
    then fill_refused leaves_dust
    else fill_ok

accepted_fill :
    (amount remaining min_fill : ℕ)
    → check_fill amount remaining min_fill ≡ fill_ok
    → (0 < amount)
      × ((amount ≡ remaining) ⊎ ((min_fill ≤ amount) × (amount + min_fill ≤ remaining)))
unfolding check_fill
accepted_fill amount remaining min_fill h = elim (Bool-cases (amount == remaining)) [
  | inl e ↦ (ground arith, inl (==→eq amount remaining e))
  | inr e ↦ (ground arith, inr (ground arith, ground arith))
]

acceptable :
    (amount remaining min_fill : ℕ)
    → 0 < amount
    → (amount ≡ remaining) ⊎ ((min_fill ≤ amount) × (amount + min_fill ≤ remaining))
    → check_fill amount remaining min_fill ≡ fill_ok
unfolding check_fill
acceptable amount remaining min_fill h0 (inl e) = ground arith
acceptable amount remaining min_fill h0 (inr (h1, h2)) = ground arith

-- A fill is accepted exactly when it takes a positive amount that is the whole remainder, or that is
-- at least the minimum and leaves at least the minimum.
pub check_fill_iff :
    (amount remaining min_fill : ℕ)
    → (check_fill amount remaining min_fill ≡ fill_ok) ↔ (
        (0 < amount)
        × ((amount ≡ remaining) ⊎ ((min_fill ≤ amount) × (amount + min_fill ≤ remaining))))
unfolding check_fill
check_fill_iff amount remaining min_fill = (
  λ h. accepted_fill amount remaining min_fill h,
  λ h. acceptable amount remaining min_fill h.0 h.1,
)

-- Fills taken one after the other: each one that the check accepts is taken off the remainder.
abbrev pub take_fills : List ℕ → ℕ → ℕ → ℕ
take_fills [] remaining min_fill = remaining
take_fills (amount ∷ rest) remaining min_fill =
    take_fills rest
      (elim (check_fill amount remaining min_fill) [ fill_ok ↦ remaining - amount | _ ↦ remaining ])
      min_fill

-- What a remainder may be: nothing, or enough for a fill.
abbrev pub Fillable : ℕ → ℕ → Type 0
Fillable remaining min_fill = (remaining ≡ 0) ⊎ (min_fill ≤ remaining)

fill_step :
    (c : FillCheck) (amount remaining min_fill : ℕ)
    → check_fill amount remaining min_fill ≡ c
    → Fillable remaining min_fill
    → Fillable (elim c [ fill_ok ↦ remaining - amount | _ ↦ remaining ]) min_fill
fill_step fill_ok amount remaining min_fill h f =
    elim (accepted_fill amount remaining min_fill h).1 [
      | inl e ↦ inl (omega arith)
      | inr b ↦ inr (omega (arith, b.0, b.1))
    ]
fill_step (fill_refused e) amount remaining min_fill h f = f

-- However many fills of whatever amounts are tried one after the other on an offer whose remainder is
-- empty or at least the minimum fill, its remainder stays empty or at least the minimum fill: no
-- remainder is left that nobody could take.
pub take_fills-Fillable :
    (amounts : List ℕ) (remaining min_fill : ℕ)
    → Fillable remaining min_fill
    → Fillable (take_fills amounts remaining min_fill) min_fill
take_fills-Fillable [] remaining min_fill f = f
take_fills-Fillable (amount ∷ rest) remaining min_fill f =
    take_fills-Fillable rest _ min_fill
      (fill_step (check_fill amount remaining min_fill) amount remaining min_fill refl f)
