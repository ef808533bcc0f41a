-- ===== src/Fees/Start.antt =====
-- The block-start step keeps the invariant, and never halts the reader once the schedule runs.
use qlyphs_wallet.Prelude.{
  ℕ, zero, suc, ◌+◌, ◌≤◌, ◌<◌, ◌≡◌, refl, sym, subst, none, some, Option, true, List, [], ◌∷◌, leb,
  ok, arith, length, get_elem?, get_elem?-some, Bool-cases, Option-cases, inl, inr, ◌⊎◌,
}
use qlyphs_wallet.Operations.{HexId}
use qlyphs_wallet.Fees.State.{
  FeeState, FeeRules, FeeReset, Grid, PendingRole, account_of, is_id, grid_ok, max_resets,
  resets_from, apply_reset, install_guardian, install_operator, install_grid, drop_previous,
  step_state, genesis_fee_state, step_fees, check_fee_rules, distinct_roles,
}
use qlyphs_wallet.Fees.Check.{grids_ok, ids_ok, check_fee_state, previous_within, pending_after}
use qlyphs_wallet.Fees.Roles.{Roster, HasRoster}
use qlyphs_wallet.Fees.Moves.{Roster-install_guardian, Roster-install_operator}
use qlyphs_wallet.Fees.Governance.{check_fee_state-parts, check_fee_state_of_parts}

-- What every step keeps: the invariant less its two facts about the height.
pub record Kept (f : FeeState) : Type 0 where
  pub resets : leb f.next_reset max_resets ≡ true
  pub grids : grids_ok f ≡ true
  pub ids : ids_ok f ≡ true
  pub roles : HasRoster f

-- A reset names three accounts that the rules were checked for.
abbrev pub ResetOk : FeeReset → Type 0
ResetOk r =
    (distinct_roles r.operator r.guardian r.sentinel ≡ true)
    × (is_id r.operator ≡ true)
    × (is_id r.guardian ≡ true)
    × (is_id r.sentinel ≡ true)

distinct_roles-Roster :
    (o g s : HexId) → distinct_roles o g s ≡ true → Roster (some o) g s none none
unfolding distinct_roles
distinct_roles-Roster o g s h = record {
  usable_o =
      (((λ e. ground arith), (λ e. ground arith)), ((λ e. ground arith), (λ e. ground arith)));
  usable_g =
      (((λ e. ground arith), (λ e. ground arith)), ((λ e. ground arith), (λ e. ground arith)));
  usable_s =
      (((λ e. ground arith), (λ e. ground arith)), ((λ e. ground arith), (λ e. ground arith)));
  usable_po = (tt, tt);
  usable_pg = (tt, tt);
  o_g = ((λ e. ground arith), (λ e. ground arith));
  o_s = ((λ e. ground arith), (λ e. ground arith));
  o_po = tt;
  o_pg = tt;
  g_s = ((λ e. ground arith), (λ e. ground arith));
  g_po = tt;
  g_pg = tt;
  s_po = tt;
  s_pg = tt;
  po_pg = tt;
}

apply_reset-Kept :
    (r : FeeReset) (f : FeeState)
    → ResetOk r
    → f.next_reset < max_resets
    → Kept f
    → Kept (apply_reset r f)
unfolding apply_reset grids_ok ids_ok
apply_reset-Kept r f ok' small v = record {
  resets = ground arith;
  grids = let g = v.grids in ground arith;
  ids = ground arith;
  roles = distinct_roles-Roster r.operator r.guardian r.sentinel ok'.0;
}

-- Each step leaves the state alone or installs what is due.
pub install_guardian_cases :
    (h : ℕ) (f : FeeState)
    → (install_guardian h f ≡ f)
      ⊎ ((p : PendingRole) × (f.pending_guardian ≡ some p)
          × (install_guardian h f ≡ record f { guardian = p.account; pending_guardian = none }))
unfolding install_guardian
install_guardian_cases h f = elim (Option-cases f.pending_guardian) [
  | inl e ↦ inl (ground arith)
  | inr (p, e) ↦ elim (Bool-cases (leb p.effective h)) [
    | inl due ↦ inr (p, e, ground arith)
    | inr early ↦ inl (ground arith)
  ]
]

pub install_operator_cases :
    (h : ℕ) (f : FeeState)
    → (install_operator h f ≡ f)
      ⊎ ((p : PendingRole) × (f.pending_operator ≡ some p)
          × (install_operator h f
              ≡ record f { operator = some p.account; pending_operator = none }))
unfolding install_operator
install_operator_cases h f = elim (Option-cases f.pending_operator) [
  | inl e ↦ inl (ground arith)
  | inr (p, e) ↦ elim (Bool-cases (leb p.effective h)) [
    | inl due ↦ inr (p, e, ground arith)
    | inr early ↦ inl (ground arith)
  ]
]

pub install_grid_cases :
    (h : ℕ) (f : FeeState)
    → ((pending_after f.pending h ≡ true) × (install_grid h f ≡ f))
      ⊎ ((g : Grid) × (f.pending ≡ some g)
          × (g.effective ≤ h)
          × (install_grid h f
              ≡ record f { previous = some f.current; current = g; pending = none }))
unfolding install_grid
install_grid_cases h f = elim (Option-cases f.pending) [
  | inl e ↦ inl (ground arith, ground arith)
  | inr (g, e) ↦ elim (Bool-cases (leb g.effective h)) [
    | inl due ↦ inr (g, e, ground arith, ground arith)
    | inr early ↦ inl (ground arith, ground arith)
  ]
]

pub drop_previous_cases :
    (rules : FeeRules) (h : ℕ) (f : FeeState)
    → ((previous_within f (some rules.grace) h ≡ true) × (drop_previous rules h f ≡ f))
      ⊎ (drop_previous rules h f ≡ record f { previous = none })
unfolding drop_previous
drop_previous_cases rules h f = elim (Option-cases f.previous) [
  | inl e ↦ inl (ground arith, ground arith)
  | inr (g, e) ↦ elim (Bool-cases (leb (f.current.effective + rules.grace) h)) [
    | inl due ↦ inr (ground arith)
    | inr early ↦ inl (ground arith, ground arith)
  ]
]

install_guardian-Kept : (h : ℕ) (f : FeeState) → Kept f → Kept (install_guardian h f)
unfolding grids_ok ids_ok
install_guardian-Kept h f v = elim (install_guardian_cases h f) [
  | inl e ↦ subst Kept (sym e) v
  | inr (p, e, q) ↦
      let roles =
        subst
          (λ t.
            Roster f.operator f.guardian f.sentinel (account_of f.pending_operator) (account_of t))
          e v.roles in
      subst Kept (sym q) (record {
        resets = v.resets;
        grids = v.grids;
        ids = ground arith;
        roles = Roster-install_guardian _ _ _ _ _ roles;
      })
]

install_operator-Kept : (h : ℕ) (f : FeeState) → Kept f → Kept (install_operator h f)
unfolding grids_ok ids_ok
install_operator-Kept h f v = elim (install_operator_cases h f) [
  | inl e ↦ subst Kept (sym e) v
  | inr (p, e, q) ↦
      let roles =
        subst
          (λ t.
            Roster f.operator f.guardian f.sentinel (account_of t) (account_of f.pending_guardian))
          e v.roles in
      subst Kept (sym q) (record {
        resets = v.resets;
        grids = v.grids;
        ids = ground arith;
        roles = Roster-install_operator _ _ _ _ _ roles;
      })
]

install_grid-Kept : (h : ℕ) (f : FeeState) → Kept f → Kept (install_grid h f)
unfolding grids_ok ids_ok
install_grid-Kept h f v = elim (install_grid_cases h f) [
  | inl (_, e) ↦ subst Kept (sym e) v
  | inr (g, e, due, q) ↦
      subst Kept (sym q)
        (record { resets = v.resets; grids = ground arith; ids = v.ids; roles = v.roles })
]

drop_previous-Kept :
    (rules : FeeRules) (h : ℕ) (f : FeeState) → Kept f → Kept (drop_previous rules h f)
unfolding grids_ok ids_ok
drop_previous-Kept rules h f v = elim (drop_previous_cases rules h f) [
  | inl (_, e) ↦ subst Kept (sym e) v
  | inr q ↦
      subst Kept (sym q)
        (record { resets = v.resets; grids = ground arith; ids = v.ids; roles = v.roles })
]

-- Every reset of a rules object that was checked.
abbrev pub ResetsOk : List FeeReset → Type 0
ResetsOk [] = Unit {0}
ResetsOk (r ∷ rs) = ResetOk r × ResetsOk rs

ResetsOk-get_elem? :
    (rs : List FeeReset) (i : ℕ) {r : FeeReset} → ResetsOk rs → get_elem? rs i ≡ some r → ResetOk r
ResetsOk-get_elem? [] i v e = ground arith
ResetsOk-get_elem? (x ∷ rs) zero {r} v e = let q : x ≡ r = ground arith in subst ResetOk q v.0
ResetsOk-get_elem? (x ∷ rs) (suc i) v e = ResetsOk-get_elem? rs i v.1 e

resets_from-Kept :
    (fuel : ℕ) (rs : List FeeReset) (h : ℕ) (f : FeeState)
    → ResetsOk rs
    → length rs ≤ max_resets
    → Kept f
    → Kept (resets_from fuel rs h f)
unfolding resets_from
resets_from-Kept zero rs h f rok small v = v
resets_from-Kept (suc fuel) rs h f rok small v = elim (Option-cases (get_elem? rs f.next_reset)) [
  | inl e ↦ rw (e, resets_from) v
  | inr (r, e) ↦
      let next = resets_from-Kept fuel rs h (apply_reset r f) rok small (
        apply_reset-Kept r f (ResetsOk-get_elem? rs f.next_reset rok e)
          (omega (arith, get_elem?-some rs f.next_reset e)) v) in
      elim (Bool-cases (leb r.at h)) [
        | inl due ↦ rw (e, resets_from, due) next
        | inr early ↦ rw (e, resets_from, early) v
      ]
]

-- What the reducer knows of the rules once `checkFeeRules` has accepted them. That accounts are 32
-- bytes is the pattern that every account of a rules object is matched against.
pub record RulesOk (rules : FeeRules) : Type 0 where
  pub checked : check_fee_rules rules ≡ true
  pub resets : ResetsOk rules.resets
  pub operator : is_id rules.operator ≡ true
  pub guardian : is_id rules.guardian ≡ true
  pub sentinel : is_id rules.sentinel ≡ true

resets-length : (rules : FeeRules) → RulesOk rules → length rules.resets ≤ max_resets
unfolding check_fee_rules
resets-length rules ok' = let h = ok'.checked in ground arith

genesis_fee_state-Kept : (rules : FeeRules) → RulesOk rules → Kept (genesis_fee_state rules)
unfolding genesis_fee_state grids_ok ids_ok check_fee_rules grid_ok
genesis_fee_state-Kept rules ok' =
    let h = ok'.checked in
    record {
      resets = refl;
      grids = ground arith;
      ids = ground arith;
      roles = distinct_roles-Roster rules.operator rules.guardian rules.sentinel (ground arith);
    }

step_state-Kept :
    (rules : FeeRules) (h : ℕ) (f : FeeState) → RulesOk rules → Kept f → Kept (step_state rules h f)
unfolding step_state
step_state-Kept rules h f ok' v = drop_previous-Kept rules h _ (
    install_grid-Kept h _ (
      install_operator-Kept h _ (
        install_guardian-Kept h _
          (resets_from-Kept _ rules.resets h f ok'.resets (resets-length rules ok') v))))

-- What is due at `h` is in place after the step, and a previous rate past its grace is gone.
install_grid-settled : (h : ℕ) (f : FeeState) → pending_after (install_grid h f).pending h ≡ true
install_grid-settled h f = elim (install_grid_cases h f) [
  | inl (late, e) ↦ subst (λ t. pending_after t.pending h ≡ true) (sym e) late
  | inr (g, e, due, q) ↦ subst (λ t. pending_after t.pending h ≡ true) (sym q) refl
]

drop_previous-settled :
    (rules : FeeRules) (h : ℕ) (f : FeeState)
    → pending_after f.pending h ≡ true
    → let f' = drop_previous rules h f in
      (pending_after f'.pending h ≡ true) × (previous_within f' (some rules.grace) h ≡ true)
drop_previous-settled rules h f p = elim (drop_previous_cases rules h f) [
  | inl (within, e) ↦
      subst
        (λ t. (pending_after t.pending h ≡ true) × (previous_within t (some rules.grace) h ≡ true))
        (sym e) (p, within)
  | inr q ↦
      subst
        (λ t. (pending_after t.pending h ≡ true) × (previous_within t (some rules.grace) h ≡ true))
        (sym q) (p, refl)
]

pub step_state-settled :
    (rules : FeeRules) (h : ℕ) (f : FeeState)
    → let f' = step_state rules h f in
      (pending_after f'.pending h ≡ true) × (previous_within f' (some rules.grace) h ≡ true)
unfolding step_state
step_state-settled rules h f = drop_previous-settled rules h _ (install_grid-settled h _)

step_state-check_fee_state :
    (rules : FeeRules) (h : ℕ) (f : FeeState)
    → RulesOk rules
    → Kept f
    → check_fee_state (step_state rules h f) h (some rules.grace) ≡ true
step_state-check_fee_state rules h f ok' v =
    let kept = step_state-Kept rules h f ok' v in
    let settled = step_state-settled rules h f in
    check_fee_state_of_parts (step_state rules h f) h (some rules.grace)
      (ground (arith, kept.resets), kept.resets, kept.grids, settled.0, settled.1, kept.ids)
      kept.roles

check_fee_state-Kept :
    (f : FeeState) (p : ℕ) (grace : Option ℕ) → check_fee_state f p grace ≡ true → Kept f
check_fee_state-Kept f p grace h =
    let (rest, roles) = check_fee_state-parts f p grace h in
    record { resets = rest.1; grids = rest.2; ids = rest.5; roles = roles }

-- The fee state before block `p + 1`: none before the schedule starts, and one within the invariant
-- from its first block on.
abbrev pub Before : FeeRules → ℕ → Option FeeState → Type 0
Before rules p fees =
    (suc p ≡ rules.from)
    ⊎ ((rules.from ≤ p)
        × ((f : FeeState) × (fees ≡ some f) × (check_fee_state f p (some rules.grace) ≡ true)))

-- From the schedule's first block on, the start of a block never throws, and leaves a fee state that
-- the reducer's own check accepts at that block.
pub step_fees-check_fee_state :
    (fees : Option FeeState) (rules : FeeRules) (p : ℕ)
    → RulesOk rules
    → Before rules p fees
    → (f : FeeState) × (step_fees fees (some rules) (suc p) ≡ ok (some f))
      × (check_fee_state f (suc p) (some rules.grace) ≡ true)
unfolding step_fees
step_fees-check_fee_state fees rules p ok' (inl first) = (
  step_state rules (suc p) (genesis_fee_state rules),
  ground arith,
  step_state-check_fee_state rules (suc p) _ ok' (genesis_fee_state-Kept rules ok'),
)
step_fees-check_fee_state fees rules p ok' (inr (later, (f, e, v))) = (
  step_state rules (suc p) f,
  ground arith,
  step_state-check_fee_state rules (suc p) f ok' (check_fee_state-Kept f p (some rules.grace) v),
)
