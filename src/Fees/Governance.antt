-- ===== src/Fees/Governance.antt =====
-- FEE_RATE and FEE_ADMIN keep the invariant that the reducer halts on.
use native.Mathlib.Decide.{ℕ_discrete}
use qlyphs_wallet.Prelude.{
  ℕ, ◌≡◌, refl, sym, subst, none, some, true, [], ◌∷◌, ok, arith, inl, inr, ◌⊎◌, ◌≢◌, ◌≤◌, ◌+◌, ◌*◌,
  Option, leb, suc, ◌<◌,
}
use qlyphs_wallet.Operations.{
  HexId, u32_max, FeeAdminOp, cancel, freeze, set_operator, set_guardian, set_sentinel,
}
use qlyphs_wallet.Fees.Rate.{check_rate, require_rate}
use qlyphs_wallet.Fees.State.{
  FeeState, FeeRules, account_of, apply_fee_admin, apply_fee_rate, excluded, is_id, u32, grid_ok,
  max_resets,
}
use qlyphs_wallet.Fees.Check.{
  roles_ok, grids_ok, ids_ok, check_fee_state, pending_after, previous_within,
}
use qlyphs_wallet.Fees.Roles.{
  HasRoster, Apart, ApartAll, roles_ok-HasRoster, HasRoster-roles_ok, excluded-ApartAll,
}
use qlyphs_wallet.Fees.Moves.{
  Roster-set_operator, Roster-set_guardian, Roster-set_sentinel, Roster-abort_guardian,
  Roster-freeze,
}

-- What the wire format guarantees of an operation: accounts are 32 bytes and heights are u32.
abbrev pub IsDecoded : FeeAdminOp → Type 0
IsDecoded cancel = Unit {0}
IsDecoded freeze = Unit {0}
IsDecoded (set_operator a e) = (is_id a ≡ true) × (u32 e ≡ true)
IsDecoded (set_guardian a e) = (is_id a ≡ true) × (u32 e ≡ true)
IsDecoded (set_sentinel a) = is_id a ≡ true

-- Within the window of a delay, as `effectiveIn` demands.
abbrev pub Within : ℕ → ℕ → ℕ → Type 0
Within effective p delay = (p + delay ≤ effective) × (effective ≤ p + 2 * delay)

-- What an accepted action says of its signer and of the next state.
abbrev pub Enacted : FeeState → FeeRules → HexId → FeeAdminOp → ℕ → FeeState → Type 0
Enacted f rules signer cancel p f' =
    ((f.operator ≡ some signer) ⊎ ((signer ≡ f.sentinel) ⊎ (signer ≡ f.guardian)))
    × (f.pending ≢ none)
    × (f' ≡ record f { pending = none })
Enacted f rules signer freeze p f' =
    ((signer ≡ f.sentinel) ⊎ (signer ≡ f.guardian))
    × (f' ≡ record f { operator = none; pending_operator = none; pending = none })
Enacted f rules signer (set_operator a t) p f' =
    (signer ≡ f.guardian)
    × ApartAll a
        (f.operator ∷ some f.guardian ∷ some f.sentinel ∷ account_of f.pending_guardian ∷ [])
    × Within t p rules.delay
    × (f' ≡ record f { pending_operator = some (record { account = a; effective = t }) })
Enacted f rules signer (set_guardian a t) p f' =
    (signer ≡ f.guardian)
    × (((a ≡ f.guardian) × (f' ≡ record f { pending_guardian = none }))
        ⊎ (Apart a f.guardian
            × ApartAll a (f.operator ∷ some f.sentinel ∷ account_of f.pending_operator ∷ [])
            × Within t p rules.guardian_delay
            × (f' ≡ record f { pending_guardian = some (record { account = a; effective = t }) })))
Enacted f rules signer (set_sentinel a) p f' =
    (signer ≡ f.guardian)
    × ApartAll a (
        f.operator
        ∷ some f.guardian
        ∷ some f.sentinel
        ∷ account_of f.pending_operator
        ∷ account_of f.pending_guardian
        ∷ [])
    × (f' ≡ record f { sentinel = a })

set_operator-excluded :
    (f : FeeState) (rules : FeeRules) (signer a : HexId) (t p : ℕ) {f' : FeeState}
    → apply_fee_admin f rules signer (set_operator a t) p ≡ ok f'
    → excluded a
        (f.operator ∷ some f.guardian ∷ some f.sentinel ∷ account_of f.pending_guardian ∷ [])
      ≡ ok tt
unfolding apply_fee_admin
set_operator-excluded f rules signer a t p h = ground arith

set_guardian-excluded :
    (f : FeeState) (rules : FeeRules) (signer a : HexId) (t p : ℕ) {f' : FeeState}
    → a ≢ f.guardian
    → apply_fee_admin f rules signer (set_guardian a t) p ≡ ok f'
    → (excluded a (f.operator ∷ some f.sentinel ∷ account_of f.pending_operator ∷ []) ≡ ok tt)
      × Within t p rules.guardian_delay
      × (f' ≡ record f { pending_guardian = some (record { account = a; effective = t }) })
unfolding apply_fee_admin
set_guardian-excluded f rules signer a t p other h =
    (ground arith, (ground arith, ground arith), ground arith)

set_sentinel-excluded :
    (f : FeeState) (rules : FeeRules) (signer a : HexId) (p : ℕ) {f' : FeeState}
    → apply_fee_admin f rules signer (set_sentinel a) p ≡ ok f'
    → excluded a (
        f.operator
        ∷ some f.guardian
        ∷ some f.sentinel
        ∷ account_of f.pending_operator
        ∷ account_of f.pending_guardian
        ∷ [])
      ≡ ok tt
unfolding apply_fee_admin
set_sentinel-excluded f rules signer a p h = ground arith

-- An accepted action was signed by a role that may take it, names an account apart from every role
-- that it must differ from, takes effect within its window, and changes only what it names.
pub apply_fee_admin-Enacted :
    (f : FeeState) (rules : FeeRules) (signer : HexId) (op : FeeAdminOp) (p : ℕ) {f' : FeeState}
    → apply_fee_admin f rules signer op p ≡ ok f'
    → Enacted f rules signer op p f'
unfolding apply_fee_admin
apply_fee_admin-Enacted f rules signer cancel p h = ground arith
apply_fee_admin-Enacted f rules signer freeze p h = ground arith
apply_fee_admin-Enacted f rules signer (set_operator a t) p h = (
  ground arith,
  excluded-ApartAll a _ (set_operator-excluded f rules signer a t p h),
  (ground arith, ground arith),
  ground arith,
)
apply_fee_admin-Enacted f rules signer (set_guardian a t) p h = elim (ℕ_discrete a f.guardian) [
  | yes same ↦ (ground arith, inl (same, ground arith))
  | no other ↦
      let (out, within, e) = set_guardian-excluded f rules signer a t p other h in
      (ground arith, inr ((other, λ q. other (sym q)), excluded-ApartAll a _ out, within, e))
]
apply_fee_admin-Enacted f rules signer (set_sentinel a) p h =
    (ground arith, excluded-ApartAll a _ (set_sentinel-excluded f rules signer a p h), ground arith)

Enacted-HasRoster :
    (f : FeeState) (rules : FeeRules) (signer : HexId) (op : FeeAdminOp) (p : ℕ) (f' : FeeState)
    → HasRoster f
    → Enacted f rules signer op p f'
    → HasRoster f'
Enacted-HasRoster f rules signer cancel p f' v (_, _, e) = rw e v
Enacted-HasRoster f rules signer freeze p f' v (_, e) = rw e (Roster-freeze f.operator _ _ _ _ v)
Enacted-HasRoster f rules signer (set_operator a t) p f' v (_, out, _, e) =
    rw e (Roster-set_operator _ _ _ _ _ a v out)
Enacted-HasRoster f rules signer (set_guardian a t) p f' v (_, inl (_, e)) =
    rw e (Roster-abort_guardian _ _ _ _ _ v)
Enacted-HasRoster f rules signer (set_guardian a t) p f' v (_, inr (apart, out, _, e)) =
    rw e (Roster-set_guardian _ _ _ _ _ a v apart out)
Enacted-HasRoster f rules signer (set_sentinel a) p f' v (_, out, e) =
    rw e (Roster-set_sentinel _ _ _ _ _ a v out)

-- The parts of the invariant besides the roles.
abbrev pub Rest : FeeState → ℕ → Option ℕ → Type 0
Rest f p grace =
    (u32 f.next_reset ≡ true)
    × (leb f.next_reset max_resets ≡ true)
    × (grids_ok f ≡ true)
    × (pending_after f.pending p ≡ true)
    × (previous_within f grace p ≡ true)
    × (ids_ok f ≡ true)

pub check_fee_state-parts :
    (f : FeeState) (p : ℕ) (grace : Option ℕ)
    → check_fee_state f p grace ≡ true
    → Rest f p grace × HasRoster f
unfolding check_fee_state
check_fee_state-parts f p grace h =
    let roles : roles_ok f ≡ true = ground arith in
    (
      (ground arith, ground arith, ground arith, ground arith, ground arith, ground arith),
      roles_ok-HasRoster f roles,
    )

pub check_fee_state_of_parts :
    (f : FeeState) (p : ℕ) (grace : Option ℕ)
    → Rest f p grace
    → HasRoster f
    → check_fee_state f p grace ≡ true
unfolding check_fee_state
check_fee_state_of_parts f p grace rest roles =
    rw (rest.0, rest.1, rest.2, rest.3, rest.4, rest.5, HasRoster-roles_ok f roles)

moved : {f f' : FeeState} (p : ℕ) (grace : Option ℕ) → f' ≡ f → Rest f p grace → Rest f' p grace
moved p grace e r = subst (λ f. Rest f p grace) (sym e) r

Enacted-Rest :
    (f : FeeState) (rules : FeeRules) (signer : HexId) (op : FeeAdminOp) (p : ℕ) (f' : FeeState)
    → Rest f p (some rules.grace)
    → IsDecoded op
    → Enacted f rules signer op p f'
    → Rest f' p (some rules.grace)
unfolding grids_ok ids_ok
Enacted-Rest f rules signer cancel p f' v d (_, _, e) =
    moved p (some rules.grace) e (v.0, v.1, ground arith, refl, v.4, ground arith)
Enacted-Rest f rules signer freeze p f' v d (_, e) =
    moved p (some rules.grace) e (v.0, v.1, ground arith, refl, v.4, ground arith)
Enacted-Rest f rules signer (set_operator a t) p f' v d (_, _, _, e) =
    moved p (some rules.grace) e (v.0, v.1, v.2, v.3, v.4, ground arith)
Enacted-Rest f rules signer (set_guardian a t) p f' v d (_, inl (_, e)) =
    moved p (some rules.grace) e (v.0, v.1, v.2, v.3, v.4, ground arith)
Enacted-Rest f rules signer (set_guardian a t) p f' v d (_, inr (_, _, _, e)) =
    moved p (some rules.grace) e (v.0, v.1, v.2, v.3, v.4, ground arith)
Enacted-Rest f rules signer (set_sentinel a) p f' v d (_, _, e) =
    moved p (some rules.grace) e (v.0, v.1, v.2, v.3, v.4, ground arith)

-- No governance action that is accepted takes the fee state out of the invariant.
pub apply_fee_admin-check_fee_state :
    (f : FeeState) (rules : FeeRules) (signer : HexId) (op : FeeAdminOp) (p : ℕ) {f' : FeeState}
    → check_fee_state f p (some rules.grace) ≡ true
    → IsDecoded op
    → apply_fee_admin f rules signer op p ≡ ok f'
    → check_fee_state f' p (some rules.grace) ≡ true
apply_fee_admin-check_fee_state f rules signer op p {f'} v d h =
    let (rest, roles) = check_fee_state-parts f p (some rules.grace) v in
    let enacted = apply_fee_admin-Enacted f rules signer op p h in
    check_fee_state_of_parts f' p (some rules.grace)
      (Enacted-Rest f rules signer op p f' rest d enacted)
      (Enacted-HasRoster f rules signer op p f' roles enacted)

-- What an accepted rate says: the operator in office posted it, in its window, canonical, within the
-- step from the rate in force, and only the pending grid and the next id change.
abbrev pub Posted : FeeState → FeeRules → HexId → (effective rate p index : ℕ) → FeeState → Type 0
Posted f rules signer effective rate p index f' =
    (f.operator ≡ some signer)
    × Within effective p rules.delay
    × (check_rate rate ≡ true)
    × (4 * rate ≤ 5 * f.current.rate)
    × (4 * f.current.rate ≤ 5 * rate)
    × (f.next_grid < u32_max)
    × (f' ≡ record f {
      pending = some (record {
        id = f.next_grid;
        rate = rate;
        effective = effective;
        height = p;
        index = index;
      });
      next_grid = suc f.next_grid;
    })

pub apply_fee_rate-Posted :
    (f : FeeState) (rules : FeeRules) (signer : HexId) (effective rate p index : ℕ) {f' : FeeState}
    → apply_fee_rate f rules signer effective rate p index ≡ ok f'
    → Posted f rules signer effective rate p index f'
unfolding apply_fee_rate require_rate check_rate
apply_fee_rate-Posted f rules signer effective rate p index h = (
  ground arith,
  (ground arith, ground arith),
  ground arith,
  ground arith,
  ground arith,
  ground arith,
  ground arith,
)

-- A posted rate that is accepted keeps the fee state within what the reducer's own check accepts at
-- that block.
pub apply_fee_rate-check_fee_state :
    (f : FeeState) (rules : FeeRules) (signer : HexId) (effective rate p index : ℕ) {f' : FeeState}
    → check_fee_state f p (some rules.grace) ≡ true
    → 1 ≤ rules.delay
    → u32 effective ≡ true
    → u32 p ≡ true
    → u32 index ≡ true
    → apply_fee_rate f rules signer effective rate p index ≡ ok f'
    → check_fee_state f' p (some rules.grace) ≡ true
unfolding grids_ok grid_ok ids_ok
apply_fee_rate-check_fee_state f rules signer effective rate p index {f'} v delay ue up ui h =
    let (rest, roles) = check_fee_state-parts f p (some rules.grace) v in
    let posted = apply_fee_rate-Posted f rules signer effective rate p index h in
    check_fee_state_of_parts f' p (some rules.grace)
      (moved p (some rules.grace) posted.6
        (rest.0, rest.1, ground arith, ground arith, rest.4, rest.5))
      (rw posted.6 roles)
