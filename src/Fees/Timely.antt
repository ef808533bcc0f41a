-- ===== src/Fees/Timely.antt =====
-- What every history of the fee state keeps of its rates: packages/native/src/fee-schedule.ts.
use qlyphs_wallet.Prelude.{
  ℕ, suc, ◌≤◌, ◌≡◌, sym, subst, none, some, Option, true, arith, inl, inr, ◌⊎◌, ltb→lt,
}
use qlyphs_wallet.Operations.{HexId}
use qlyphs_wallet.Fees.State.{FeeState, FeeRules, Grid}
use qlyphs_wallet.Fees.Check.{pending_after}
use qlyphs_wallet.Fees.Start.{step_state-settled}
use qlyphs_wallet.Fees.Governance.{Posted, apply_fee_admin-Enacted, apply_fee_rate-Posted}
use qlyphs_wallet.Fees.Run.{
  Run, here, rate_posted, administered, block_started, Follows, Timely, Enacted-grids, BlockGrids,
  step_state-BlockGrids,
}

module _ (rules : FeeRules) where
  admin-Timely :
      (p : ℕ) (f f' : FeeState)
      → (f'.current ≡ f.current)
      → ((f'.pending ≡ f.pending) ⊎ (f'.pending ≡ none))
      → Timely rules p f
      → Timely rules p f'
  admin-Timely p f f' c (inl e) t = rw (c, e) t
  admin-Timely p f f' c (inr e) t = rw (c, e) (t.0, tt)

  Posted-Timely :
      (p : ℕ) (f f' : FeeState) (signer : HexId) (effective rate index : ℕ)
      → 1 ≤ rules.delay
      → Posted f rules signer effective rate p index f'
      → Timely rules p f
      → Timely rules p f'
  Posted-Timely p f f' signer effective rate index d posted t =
      subst (Timely rules p) (sym posted.6) (t.0, (omega arith, omega arith, posted.3, posted.4))

  Follows-next :
      (p : ℕ) (c : Grid) (q : Option Grid)
      → pending_after q (suc p) ≡ true
      → Follows rules p c q
      → Follows rules (suc p) c q
  Follows-next p c none late t = tt
  Follows-next p c (some g) late t = (ltb→lt (suc p) g.effective late, t.1, t.2, t.3)

  block-Timely :
      (p : ℕ) (f f' : FeeState)
      → BlockGrids rules (suc p) f f'
      → pending_after f'.pending (suc p) ≡ true
      → Timely rules p f
      → Timely rules (suc p) f'
  block-Timely p f f' (inr (g, e, due, c, v, q)) late t = rw (c, q) (due, tt)
  block-Timely p f f' (inl (c, v, inr q)) late t = rw (c, q) (omega arith, tt)
  block-Timely p f f' (inl (c, v, inl q)) late t =
      (rw c (omega arith), Follows-next p f'.current f'.pending late (rw (c, q) t.1))

  -- Every history keeps a pending rate to come, its delay away from the rate in force, and within the
  -- step.
  pub Run-Timely :
      (f : FeeState) (h : ℕ) (g : FeeState) (p : ℕ)
      → 1 ≤ rules.delay
      → Timely rules h f
      → Run rules f h g p
      → Timely rules p g
  Run-Timely f h g p d t here = t
  Run-Timely f h g p d t (rate_posted {g = k} signer effective rate index r e) =
      Posted-Timely p k g signer effective rate index d
        (apply_fee_rate-Posted k rules signer effective rate p index e) (Run-Timely f h k p d t r)
  Run-Timely f h g p d t (administered {g = k} signer op r e) =
      let (c, _, q) =
        Enacted-grids k rules signer op p g (apply_fee_admin-Enacted k rules signer op p e) in
      admin-Timely p k g c q (Run-Timely f h k p d t r)
  Run-Timely f h g p d t (block_started {g = k} {p = n} r) =
      block-Timely n k g (step_state-BlockGrids rules (suc n) k)
        (step_state-settled rules (suc n) k).0 (Run-Timely f h k n d t r)

  pub Run-height : (f : FeeState) (h : ℕ) (g : FeeState) (p : ℕ) → Run rules f h g p → h ≤ p
  Run-height f h g p here = omega arith
  Run-height f h g p (rate_posted {g = k} s t x i r e) = Run-height f h k p r
  Run-height f h g p (administered {g = k} s o r e) = Run-height f h k p r
  Run-height f h g p (block_started {g = k} {p = n} r) = omega (arith, Run-height f h k n r)
