-- ===== src/Fees/Notice.antt =====
-- Public notice and the grace of packages/native/src/fee-schedule.ts, over any history.
use qlyphs_wallet.Prelude.{
  ℕ, suc, ◌+◌, ◌*◌, ◌≤◌, ◌<◌, ◌≡◌, refl, sym, ◌∙◌, ap, subst, none, some, Option, arith, inl, inr,
  ◌⊎◌,
}
use qlyphs_wallet.Operations.{HexId}
use qlyphs_wallet.Fees.State.{FeeState, FeeRules, Grid, step_state}
use qlyphs_wallet.Fees.Governance.{Posted, apply_fee_admin-Enacted, apply_fee_rate-Posted}
use qlyphs_wallet.Fees.Run.{
  Run, here, rate_posted, administered, block_started, Follows, Timely, Enacted-grids, BlockGrids,
  step_state-BlockGrids,
}
use qlyphs_wallet.Fees.Timely.{Run-Timely, Run-height}

-- Nothing pending is due by a height.
abbrev pub Clear : ℕ → Option Grid → Type 0
Clear n none = Unit {0}
Clear n (some g) = n < g.effective

Clear-or_none : (n : ℕ) (q r : Option Grid) → ((r ≡ q) ⊎ (r ≡ none)) → Clear n q → Clear n r
Clear-or_none n q r (inl e) c = rw e c
Clear-or_none n q r (inr e) c = rw e tt

Posted-grids :
    (rules : FeeRules) (p : ℕ) (f f' : FeeState) (signer : HexId) (effective rate index : ℕ)
    → Posted f rules signer effective rate p index f'
    → (f'.current ≡ f.current)
      × (f'.previous ≡ f.previous)
      × ((n : ℕ) → n < p + rules.delay → Clear n f'.pending)
Posted-grids rules p f f' signer effective rate index posted =
    subst
      (λ t.
        (t.current ≡ f.current)
        × (t.previous ≡ f.previous)
        × ((n : ℕ) → n < p + rules.delay → Clear n t.pending))
      (sym posted.6) (refl, refl, λ n l. omega arith)

module _ (rules : FeeRules) (n : ℕ) where
  block-Clear :
      (m : ℕ) (f f' : FeeState)
      → m ≤ n
      → BlockGrids rules m f f'
      → Clear n f.pending
      → (f'.current ≡ f.current) × Clear n f'.pending
  block-Clear m f f' l (inl (c, _, q)) clear = (c, Clear-or_none n f.pending f'.pending q clear)
  block-Clear m f f' l (inr (g, e, due, _, _, _)) clear =
      let late : n < g.effective = subst (Clear n) e clear in absurd (omega arith)

  notice :
      (f : FeeState) (h : ℕ) (g : FeeState) (p : ℕ)
      → p ≤ n
      → n < h + rules.delay
      → Clear n f.pending
      → Run rules f h g p
      → (g.current ≡ f.current) × Clear n g.pending
  notice f h g p pn nd clear here = (refl, clear)
  notice f h g p pn nd clear (rate_posted {g = k} signer effective rate index r e) =
      let posted = apply_fee_rate-Posted k rules signer effective rate p index e in
      let (c, _, late) = Posted-grids rules p k g signer effective rate index posted in
      let (c', _) = notice f h k p pn nd clear r in
      (c ∙ c', late n (omega (arith, Run-height rules f h k p r)))
  notice f h g p pn nd clear (administered {g = k} signer op r e) =
      let (c, _, q) =
        Enacted-grids k rules signer op p g (apply_fee_admin-Enacted k rules signer op p e) in
      let (c', l) = notice f h k p pn nd clear r in
      (c ∙ c', Clear-or_none n k.pending g.pending q l)
  notice f h g p pn nd clear (block_started {g = k} {p = m} r) =
      let (c', l) = notice f h k m (omega arith) nd clear r in
      let (c, l') = block-Clear (suc m) k g pn (step_state-BlockGrids rules (suc m) k) l in
      (c ∙ c', l')

-- The rate in force changes only with notice. From a state with no pending rate due by `n`, whatever
-- is signed afterwards, the grid in force is the same at every height up to `n` that is less than
-- `delay` blocks away.
pub rate_notice :
    (rules : FeeRules) (f g : FeeState) (h p n : ℕ)
    → p ≤ n
    → n < h + rules.delay
    → Clear n f.pending
    → Run rules f h g p
    → g.current ≡ f.current
rate_notice rules f g h p n pn nd clear r = (notice rules n f h g p pn nd clear r).0

-- One block start moves the rate in force by at most five quarters, up or down, in any history.
pub rate_step :
    (rules : FeeRules) (f g : FeeState) (h p : ℕ)
    → 1 ≤ rules.delay
    → Timely rules h f
    → Run rules f h g p
    → let now = (step_state rules (suc p) g).current.rate in
      (4 * now ≤ 5 * g.current.rate) × (4 * g.current.rate ≤ 5 * now)
rate_step rules f g h p d t r =
    stepped (step_state-BlockGrids rules (suc p) g) (Run-Timely rules f h g p d t r)
  where
    stepped :
        BlockGrids rules (suc p) g (step_state rules (suc p) g)
        → Timely rules p g
        → let now = (step_state rules (suc p) g).current.rate in
          (4 * now ≤ 5 * g.current.rate) × (4 * g.current.rate ≤ 5 * now)
    stepped (inl (c, _, _)) q = rw c (omega arith, omega arith)
    stepped (inr (k, e, _, c, _, _)) q =
        let bounds = subst (Follows rules p g.current) e q.1 in rw c (bounds.2, bounds.3)

-- A grid is still payable: it is in force, or it is the previous one.
abbrev pub Payable : Grid → FeeState → Type 0
Payable c g = (g.current ≡ c) ⊎ (g.previous ≡ some c)

-- The grid that replaced `c` did so after `h`.
abbrev Replaced : FeeRules → ℕ → Grid → FeeState → Type 0
Replaced rules h c g = (g.current ≡ c) ⊎ ((g.previous ≡ some c) × (h < g.current.effective))

module _ (rules : FeeRules) (grace : rules.grace < rules.delay) (c : Grid) (h : ℕ) where
  same-Replaced :
      (g g' : FeeState)
      → (g'.current ≡ g.current)
      → (g'.previous ≡ g.previous)
      → Replaced rules h c g
      → Replaced rules h c g'
  same-Replaced g g' a b (inl e) = inl (a ∙ e)
  same-Replaced g g' a b (inr (e, l)) = inr (b ∙ e, rw a l)

  block-Replaced :
      (p : ℕ) (g g' : FeeState)
      → suc p ≤ h + rules.grace
      → h ≤ p
      → Timely rules p g
      → BlockGrids rules (suc p) g g'
      → Replaced rules h c g
      → Replaced rules h c g'
  block-Replaced p g g' l hp t (inl (a, v, _)) (inl e) = inl (a ∙ e)
  block-Replaced p g g' l hp t (inl (a, inl v, _)) (inr (e, k)) = inr (v ∙ e, rw a k)
  block-Replaced p g g' l hp t (inl (a, inr v, _)) (inr (e, k)) = absurd (omega arith)
  block-Replaced p g g' l hp t (inr (q, e, due, a, v, _)) (inr (_, k)) =
      let bounds = subst (Follows rules p g.current) e t.1 in absurd (omega arith)
  block-Replaced p g g' l hp t (inr (q, e, due, a, inl v, _)) (inl s) =
      let bounds = subst (Follows rules p g.current) e t.1 in
      inr (v ∙ ap some s, rw a (omega arith))
  block-Replaced p g g' l hp t (inr (q, e, due, a, inr v, _)) (inl s) =
      let bounds = subst (Follows rules p g.current) e t.1 in absurd (omega arith)

  Run-Replaced :
      (f g : FeeState) (p : ℕ)
      → f.current ≡ c
      → Timely rules h f
      → p ≤ h + rules.grace
      → Run rules f h g p
      → Replaced rules h c g
  Run-Replaced f g p e t l here = inl e
  Run-Replaced f g p e t l (rate_posted {g = k} signer effective rate index r q) =
      let posted = apply_fee_rate-Posted k rules signer effective rate p index q in
      let (a, b, _) = Posted-grids rules p k g signer effective rate index posted in
      same-Replaced k g a b (Run-Replaced f k p e t l r)
  Run-Replaced f g p e t l (administered {g = k} signer op r q) =
      let (a, b, _) =
        Enacted-grids k rules signer op p g (apply_fee_admin-Enacted k rules signer op p q) in
      same-Replaced k g a b (Run-Replaced f k p e t l r)
  Run-Replaced f g p e t l (block_started {g = k} {p = m} r) =
      block-Replaced m k g l (Run-height rules f h k m r)
        (Run-Timely rules f h k m (omega arith) t r) (step_state-BlockGrids rules (suc m) k)
        (Run-Replaced f k m e t (omega arith) r)

-- A rate in force at a height is still payable at every height within the grace after it, in any
-- history: it is in force, or it is the previous one.
pub rate_stays-Payable :
    (rules : FeeRules) (f g : FeeState) (h p : ℕ)
    → rules.grace < rules.delay
    → Timely rules h f
    → p ≤ h + rules.grace
    → Run rules f h g p
    → Payable f.current g
rate_stays-Payable rules f g h p grace t l r =
    elim (Run-Replaced rules grace f.current h f g p refl t l r) [
      | inl e ↦ inl e
      | inr (e, _) ↦ inr e
    ]
