-- ===== src/Fees/Allowed.antt =====
-- `allowedFees` of packages/native/src/fee-schedule.ts: which amounts a rate-derived operation may
-- pay at a height, and for how long an amount is accepted.
use qlyphs_wallet.Prelude.{
  ℕ, max, ◌*◌, ◌/◌, ◌+◌, ◌≤◌, ◌<◌, ◌≡◌, refl, subst, none, some, true, ok, arith, inl, inr, List,
  [], ◌∷◌, any_of, ◌==◌, ==-refl, Bool-cases, Option-cases, ltb, >>=-eq-ok, ◌&&◌,
}
use qlyphs_wallet.Operations.{
  Operation, deploy, inscribe, deploy_progressive, deploy_progressive_v2, mint, transfer, offer,
  fee_rate, fee_admin,
}
use qlyphs_wallet.Fees.Rate.{
  fee, fee_at, cents_for, is_rate_derived, legacy_fee, legacy_deploy_fee, legacy_inscribe_fee, ed,
  check_rate,
}
use qlyphs_wallet.Fees.Exact.{fee_price, fee_at_exact}
use qlyphs_wallet.Fees.State.{
  FeeState, FeeRules, Grid, allowed_fees, grid_fees, push_amount, grid_ok,
}
use qlyphs_wallet.Fees.Check.{check_fee_state, grids_ok}
use qlyphs_wallet.Fees.Governance.{check_fee_state-parts}
use qlyphs_wallet.Fees.Run.{Run, Timely}
use qlyphs_wallet.Fees.Notice.{Payable, rate_stays-Payable}

abbrev pub Contains : ℕ → List ℕ → Type 0
Contains n l = any_of (λ m. m == n) l ≡ true

push_amount-Contains : (l : List ℕ) (n : ℕ) → Contains n (push_amount l n)
unfolding push_amount
push_amount-Contains [] n = rw ==-refl
push_amount-Contains (m ∷ ms) n = elim (Bool-cases (m == n)) [
  | inl e ↦ rw e (rw e)
  | inr e ↦ rw e (rw e (push_amount-Contains ms n))
]

push_amount_keeps : (l : List ℕ) (n k : ℕ) → Contains k l → Contains k (push_amount l n)
unfolding push_amount
push_amount_keeps [] n k h = ground arith
push_amount_keeps (m ∷ ms) n k h = elim (Bool-cases (m == n)) [
  | inl e ↦ rw e h
  | inr e ↦ rw e (ground (arith, push_amount_keeps ms n k))
]

-- The same operation has a fee at any other canonical rate.
fee_other :
    (op : Operation) (rate rate' : ℕ) {n : ℕ}
    → fee op rate ≡ ok n
    → check_rate rate' ≡ true
    → (m : ℕ) × (fee op rate' ≡ ok m)
unfolding fee
fee_other op rate rate' h c =
    let (cents, e, _) = >>=-eq-ok (cents_for op) (λ t. fee_at t rate) h in
    (max ed (cents * (rate' / 100)), rw e (fee_at_exact cents rate' c).0)

legacy_fee_total : (op : Operation) → is_rate_derived op ≡ true → (m : ℕ) × (legacy_fee op ≡ ok m)
unfolding legacy_fee is_rate_derived
legacy_fee_total (deploy d) h = (legacy_deploy_fee, refl)
legacy_fee_total (inscribe t c) h = (legacy_inscribe_fee, refl)
legacy_fee_total (deploy_progressive d) h = (legacy_deploy_fee, refl)
legacy_fee_total (deploy_progressive_v2 d) h = (legacy_deploy_fee, refl)
legacy_fee_total (mint a n) h = cc
legacy_fee_total (transfer a n t) h = cc
legacy_fee_total (offer o) h = cc
legacy_fee_total (fee_rate e r) h = cc
legacy_fee_total (fee_admin a) h = cc

current_canonical : (f : FeeState) → grids_ok f ≡ true → check_rate f.current.rate ≡ true
unfolding grids_ok grid_ok
current_canonical f h = ground arith

previous_canonical :
    (f : FeeState) (g : Grid) → grids_ok f ≡ true → f.previous ≡ some g → check_rate g.rate ≡ true
unfolding grids_ok grid_ok
previous_canonical f g h e = ground arith

grid_fees_total :
    (f : FeeState) (op : Operation) (now n : ℕ) (c : Grid)
    → grids_ok f ≡ true
    → fee op f.current.rate ≡ ok now
    → fee op c.rate ≡ ok n
    → Payable c f
    → (l : List ℕ) × (grid_fees f op now ≡ ok l) × Contains n l
unfolding grid_fees
grid_fees_total f op now n c v e h pay = elim (Option-cases f.previous) [
  | inl q ↦ (now ∷ [], rw (q, grid_fees), alone pay q)
  | inr (g, q) ↦
      let (m, k) = fee_other op f.current.rate g.rate e (previous_canonical f g v q) in
      (push_amount (now ∷ []) m, rw (q, grid_fees, k), both g m q k pay)
]
  where
    same_rate : (d : Grid) (k : ℕ) → d ≡ c → fee op d.rate ≡ ok k → k ≡ n
    same_rate d k p q = let q' : fee op d.rate ≡ ok n = rw p h in ground arith

    alone : Payable c f → f.previous ≡ none → Contains n (now ∷ [])
    alone (inl p) q = rw (same_rate f.current now p e, ==-refl)
    alone (inr p) q = cc

    both :
        (g : Grid) (m : ℕ)
        → f.previous ≡ some g
        → fee op g.rate ≡ ok m
        → Payable c f
        → Contains n (push_amount (now ∷ []) m)
    both g m q k (inl p) =
        push_amount_keeps (now ∷ []) m n (rw (same_rate f.current now p e, ==-refl))
    both g m q k (inr p) =
        let s : m ≡ n = same_rate g m (cc) k in
        subst (λ t. Contains t (push_amount (now ∷ []) m)) s (push_amount-Contains (now ∷ []) m)

-- An amount that the rate in force asks for is accepted at every height within the grace after it:
-- whatever is signed meanwhile, the amounts allowed at that height can be computed and hold it.
pub fee_stays_accepted :
    (rules : FeeRules) (f g : FeeState) (h p : ℕ) (op : Operation) {n : ℕ}
    → rules.grace < rules.delay
    → Timely rules h f
    → p ≤ h + rules.grace
    → Run rules f h g p
    → check_fee_state g p (some rules.grace) ≡ true
    → fee op f.current.rate ≡ ok n
    → (l : List ℕ) × (allowed_fees g rules op p ≡ ok l) × Contains n l
unfolding allowed_fees
fee_stays_accepted rules f g h p op {n} grace t l r v e =
    let grids : grids_ok g ≡ true = (check_fee_state-parts g p (some rules.grace) v).0.2 in
    let (now, k) = fee_other op f.current.rate g.current.rate e (current_canonical g grids) in
    let (before, k', inside) =
      grid_fees_total g op now n f.current grids k e
        (rate_stays-Payable rules f g h p grace t l r) in
    let (old, k'') = legacy_fee_total op (fee_price op f.current.rate e).0 in
    elim (Bool-cases (rules.legacy_before && ltb p (rules.from + rules.grace))) [
      | inl window ↦
          (push_amount before old, rw (k, k', window, k''), push_amount_keeps before old n inside)
      | inr over ↦ (before, rw (k, k', over), inside)
    ]
