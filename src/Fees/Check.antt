-- ===== src/Fees/Check.antt =====
-- `checkFeeState` of packages/native/src/fee-schedule.ts: what the reducer asserts of a fee state
-- after every receipt, and stops at when it fails.
use qlyphs_wallet.Prelude.{
  ℕ, ◌+◌, Option, none, some, Bool, true, ◌&&◌, not, List, [], ◌∷◌, ◌++◌, ltb, leb, ◌==◌, every,
  any_of,
}
use qlyphs_wallet.Operations.{HexId, zero_id, qlyphs_fee_account}
use qlyphs_wallet.Fees.State.{
  Grid, PendingRole, FeeState, account_of, grid_ok, is_id, u32, max_resets,
}

abbrev pub present {ℓ} : {A : Type ℓ} → Option A → List A
present none = []
present (some a) = a ∷ []

abbrev pub grids : FeeState → List Grid
grids f = f.current ∷ (present f.previous ++ present f.pending)

abbrev pub roster : Option HexId → HexId → HexId → Option HexId → Option HexId → List HexId
roster operator guardian sentinel next_operator next_guardian =
    present operator ++ (guardian ∷ sentinel ∷ (present next_operator ++ present next_guardian))

abbrev pub accounts : FeeState → List HexId
accounts f =
    roster f.operator f.guardian f.sentinel (account_of f.pending_operator)
      (account_of f.pending_guardian)

-- `new Set(accounts).size === accounts.length`
abbrev pub no_repeats : List HexId → Bool
no_repeats [] = true
no_repeats (a ∷ as') = not (any_of (λ b. a == b) as') && no_repeats as'

abbrev pub pending_ok : Option PendingRole → Bool
pending_ok none = true
pending_ok (some p) = is_id p.account && u32 p.effective

abbrev pub operator_ok : Option HexId → Bool
operator_ok none = true
operator_ok (some a) = is_id a

abbrev pub pending_after : Option Grid → ℕ → Bool
pending_after none h = true
pending_after (some g) h = ltb h g.effective

-- Without the rules, `grace` is undefined and nothing is asked of the previous grid.
abbrev pub previous_within : FeeState → Option ℕ → ℕ → Bool
previous_within f none h = true
previous_within f (some grace) h = elim f.previous [
  | none ↦ true
  | some g ↦ ltb h (f.current.effective + grace)
]

unfoldable pub roles_ok : FeeState → Bool
roles_ok f =
    no_repeats (accounts f)
    && not (any_of (λ b. zero_id == b) (accounts f))
    && not (any_of (λ b. qlyphs_fee_account == b) (accounts f))

unfoldable pub grids_ok : FeeState → Bool
grids_ok f =
    every grid_ok (grids f) && every (λ g. ltb g.id f.next_grid) (grids f) && u32 f.next_grid

unfoldable pub ids_ok : FeeState → Bool
ids_ok f =
    pending_ok f.pending_operator
    && pending_ok f.pending_guardian
    && (operator_ok f.operator && is_id f.guardian && is_id f.sentinel)

unfoldable pub check_fee_state : FeeState → ℕ → Option ℕ → Bool
check_fee_state f height grace =
    u32 f.next_reset
    && leb f.next_reset max_resets
    && grids_ok f
    && (pending_after f.pending height && previous_within f grace height)
    && ids_ok f
    && roles_ok f
