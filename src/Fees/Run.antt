-- ===== src/Fees/Run.antt =====
-- Histories of the fee state: blocks that start, and governance operations that are accepted. A rate
-- moves by a bounded step, with notice, and the rate it replaces stays payable for the grace.
use qlyphs_wallet.Prelude.{
  ℕ, zero, suc, ◌+◌, ◌*◌, ◌≤◌, ◌<◌, ◌≡◌, refl, sym, ◌∙◌, subst, none, some, Option, List, leb, ok,
  arith, inl, inr, ◌⊎◌, length, Option-cases, Bool-cases, get_elem?,
}
use qlyphs_wallet.Operations.{
  HexId, FeeAdminOp, cancel, freeze, set_operator, set_guardian, set_sentinel,
}
use qlyphs_wallet.Fees.State.{
  FeeState, FeeRules, FeeReset, Grid, apply_fee_admin, apply_fee_rate, resets_from, apply_reset,
  install_guardian, install_operator, install_grid, drop_previous, step_state,
}
use qlyphs_wallet.Fees.Governance.{Enacted}
use qlyphs_wallet.Fees.Start.{install_grid_cases, install_guardian_cases, install_operator_cases}

-- From a state `f` at height `h`: what the reducer can make of it, and the height it has reached.
pub data Run (rules : FeeRules) (f : FeeState) (h : ℕ) : FeeState → ℕ → Type 0 where
  here : Run rules f h f h
  rate_posted :
      {g g' : FeeState} {p : ℕ} (signer : HexId) (effective rate index : ℕ)
      → Run rules f h g p
      → apply_fee_rate g rules signer effective rate p index ≡ ok g'
      → Run rules f h g' p
  administered :
      {g g' : FeeState} {p : ℕ} (signer : HexId) (op : FeeAdminOp)
      → Run rules f h g p
      → apply_fee_admin g rules signer op p ≡ ok g'
      → Run rules f h g' p
  block_started :
      {g : FeeState} {p : ℕ}
      → Run rules f h g p
      → Run rules f h (step_state rules (suc p) g) (suc p)

-- What a pending grid owes to the grid in force: it is still to come, it was posted after that grid
-- took effect and with the delay between, and it is within the step.
abbrev pub Follows : FeeRules → ℕ → Grid → Option Grid → Type 0
Follows rules p current none = Unit {0}
Follows rules p current (some g) =
    (p < g.effective)
    × (current.effective + rules.delay ≤ g.effective)
    × (4 * g.rate ≤ 5 * current.rate)
    × (4 * current.rate ≤ 5 * g.rate)

abbrev pub Timely : FeeRules → ℕ → FeeState → Type 0
Timely rules p f = (f.current.effective ≤ p) × Follows rules p f.current f.pending

pub Enacted-grids :
    (f : FeeState) (rules : FeeRules) (signer : HexId) (op : FeeAdminOp) (p : ℕ) (f' : FeeState)
    → Enacted f rules signer op p f'
    → (f'.current ≡ f.current)
      × (f'.previous ≡ f.previous)
      × ((f'.pending ≡ f.pending) ⊎ (f'.pending ≡ none))
Enacted-grids f rules signer cancel p f' (_, _, e) = rw e (refl, refl, inr refl)
Enacted-grids f rules signer freeze p f' (_, e) = rw e (refl, refl, inr refl)
Enacted-grids f rules signer (set_operator a t) p f' (_, _, _, e) = rw e (refl, refl, inl refl)
Enacted-grids f rules signer (set_guardian a t) p f' (_, inl (_, e)) = rw e (refl, refl, inl refl)
Enacted-grids f rules signer (set_guardian a t) p f' (_, inr (_, _, _, e)) =
    rw e (refl, refl, inl refl)
Enacted-grids f rules signer (set_sentinel a) p f' (_, _, e) = rw e (refl, refl, inl refl)

-- The steps that leave the rates alone.
abbrev KeepsGrids : FeeState → FeeState → Type 0
KeepsGrids f f' =
    (f'.current ≡ f.current)
    × (f'.previous ≡ f.previous)
    × ((f'.pending ≡ f.pending) ⊎ (f'.pending ≡ none))

KeepsGrids-trans : (f g k : FeeState) → KeepsGrids f g → KeepsGrids g k → KeepsGrids f k
KeepsGrids-trans f g k (a, b, inl c) (d, e, inl q) = (d ∙ a, e ∙ b, inl (q ∙ c))
KeepsGrids-trans f g k (a, b, inr c) (d, e, inl q) = (d ∙ a, e ∙ b, inr (q ∙ c))
KeepsGrids-trans f g k (a, b, _) (d, e, inr q) = (d ∙ a, e ∙ b, inr q)

resets_from-KeepsGrids :
    (fuel : ℕ) (rs : List FeeReset) (h : ℕ) (f : FeeState) → KeepsGrids f (resets_from fuel rs h f)
unfolding resets_from apply_reset
resets_from-KeepsGrids zero rs h f = (refl, refl, inl refl)
resets_from-KeepsGrids (suc fuel) rs h f = elim (Option-cases (get_elem? rs f.next_reset)) [
  | inl e ↦ rw (e, resets_from) (refl, refl, inl refl)
  | inr (r, e) ↦
      let next = resets_from-KeepsGrids fuel rs h (apply_reset r f) in
      elim (Bool-cases (leb r.at h)) [
        | inl due ↦
            rw (e, resets_from, due)
              (KeepsGrids-trans f (apply_reset r f) (resets_from fuel rs h (apply_reset r f))
                (refl, refl, inr refl) next)
        | inr early ↦ rw (e, resets_from, early) (refl, refl, inl refl)
      ]
]

install_guardian-KeepsGrids : (h : ℕ) (f : FeeState) → KeepsGrids f (install_guardian h f)
install_guardian-KeepsGrids h f = elim (install_guardian_cases h f) [
  | inl e ↦ rw e (refl, refl, inl refl)
  | inr (p, _, e) ↦ rw e (refl, refl, inl refl)
]

install_operator-KeepsGrids : (h : ℕ) (f : FeeState) → KeepsGrids f (install_operator h f)
install_operator-KeepsGrids h f = elim (install_operator_cases h f) [
  | inl e ↦ rw e (refl, refl, inl refl)
  | inr (p, _, e) ↦ rw e (refl, refl, inl refl)
]

-- What a block start does to the rates: nothing is due and the replaced rate may go, once its grace
-- is over; or the pending grid takes effect, and the rate that it replaces is kept.
abbrev pub BlockGrids : FeeRules → ℕ → FeeState → FeeState → Type 0
BlockGrids rules h f f' =
    ((f'.current ≡ f.current)
      × ((f'.previous ≡ f.previous) ⊎ (f.current.effective + rules.grace ≤ h))
      × ((f'.pending ≡ f.pending) ⊎ (f'.pending ≡ none)))
    ⊎ ((g : Grid) × (f.pending ≡ some g)
        × (g.effective ≤ h)
        × (f'.current ≡ g)
        × ((f'.previous ≡ some f.current) ⊎ (g.effective + rules.grace ≤ h))
        × (f'.pending ≡ none))

drop_previous-kept :
    (rules : FeeRules) (h : ℕ) (f : FeeState)
    → let f' = drop_previous rules h f in
      (f'.current ≡ f.current)
      × (f'.pending ≡ f.pending)
      × ((f'.previous ≡ f.previous) ⊎ (f.current.effective + rules.grace ≤ h))
unfolding drop_previous
drop_previous-kept rules h f = elim (Option-cases f.previous) [
  | inl e ↦ rw (e, drop_previous) (refl, refl, inl e)
  | inr (g, e) ↦ elim (Bool-cases (leb (f.current.effective + rules.grace) h)) [
    | inl due ↦ rw (e, drop_previous, due) (refl, refl, inr (ground arith))
    | inr early ↦ rw (e, drop_previous, early) (refl, refl, inl e)
  ]
]

Dropped : FeeRules → ℕ → FeeState → FeeState → Type 0
Dropped rules h m f' =
    (f'.current ≡ m.current)
    × (f'.pending ≡ m.pending)
    × ((f'.previous ≡ m.previous) ⊎ (m.current.effective + rules.grace ≤ h))

settle-same :
    (rules : FeeRules) (h : ℕ) (f m f' : FeeState)
    → m ≡ f
    → Dropped rules h m f'
    → BlockGrids rules h f f'
unfolding Dropped
settle-same rules h f m f' e d =
    let (c, q, l) = subst (λ t. Dropped rules h t f') e d in inl (c, l, inl q)

settle-installed :
    (rules : FeeRules) (h : ℕ) (f m f' : FeeState) (g : Grid)
    → f.pending ≡ some g
    → g.effective ≤ h
    → m ≡ record f { previous = some f.current; current = g; pending = none }
    → Dropped rules h m f'
    → BlockGrids rules h f f'
unfolding Dropped
settle-installed rules h f m f' g e due i d =
    let (c, q, l) = subst (λ t. Dropped rules h t f') i d in inr (g, e, due, c, l, q)

install_drop-BlockGrids :
    (rules : FeeRules) (h : ℕ) (f : FeeState)
    → BlockGrids rules h f (drop_previous rules h (install_grid h f))
unfolding Dropped
install_drop-BlockGrids rules h f =
    let d = drop_previous-kept rules h (install_grid h f) in
    elim (install_grid_cases h f) [
      | inl (_, e) ↦
          settle-same rules h f (install_grid h f) (drop_previous rules h (install_grid h f)) e d
      | inr (g, e, due, i) ↦
          settle-installed rules h f (install_grid h f) (drop_previous rules h (install_grid h f)) g
            e due i d
    ]

-- The steps before the rates neither add a pending grid nor touch the one in force.
BlockGrids-after :
    (rules : FeeRules) (h : ℕ) (f m f' : FeeState)
    → KeepsGrids f m
    → BlockGrids rules h m f'
    → BlockGrids rules h f f'
BlockGrids-after rules h f m f' (c, v, inl p) (inl (c', v', p')) =
    inl (c' ∙ c, ground arith, ground arith)
BlockGrids-after rules h f m f' (c, v, inr p) (inl (c', v', p')) =
    inl (c' ∙ c, ground arith, ground arith)
BlockGrids-after rules h f m f' (c, v, inl p) (inr (g, e, due, c', v', p')) =
    inr (g, sym p ∙ e, due, c', ground arith, p')
BlockGrids-after rules h f m f' (c, v, inr p) (inr (g, e, due, c', v', p')) = absurd (cc)

pub step_state-BlockGrids :
    (rules : FeeRules) (h : ℕ) (f : FeeState) → BlockGrids rules h f (step_state rules h f)
unfolding step_state
step_state-BlockGrids rules h f =
    let f₁ = resets_from (length rules.resets) rules.resets h f in
    let f₂ = install_guardian h f₁ in
    let f₃ = install_operator h f₂ in
    BlockGrids-after rules h f f₃ (drop_previous rules h (install_grid h f₃))
      (KeepsGrids-trans f f₂ f₃
        (KeepsGrids-trans f f₁ f₂ (resets_from-KeepsGrids (length rules.resets) rules.resets h f)
          (install_guardian-KeepsGrids h f₁))
        (install_operator-KeepsGrids h f₂))
      (install_drop-BlockGrids rules h f₃)
