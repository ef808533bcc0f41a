-- ===== src/Fees/State.antt =====
-- The fee rules, the fee state and its transitions: packages/native/src/fee-schedule.ts. Heights, grid
-- ids and indexes are numbers; `null` is `none`. The decimal string of a rules object's rate is the
-- number that it spells.
use qlyphs_wallet.Prelude.{
  ℕ, zero, suc, ◌+◌, ◌*◌, Option, none, some, Bool, true, false, ◌&&◌, ◌||◌, not, List, [], ◌∷◌,
  ltb, leb, ◌==◌, if◌then◌else◌, Result, ok, err, require_that, ◌>>=◌, ◌>>◌, length, get_elem?,
}
use qlyphs_wallet.Refusal.{
  Refusal, fee_state_missing, invalid_effective_height, fee_operator_frozen, not_the_fee_operator,
  rate_step_too_large, grid_ids_exhausted, invalid_fee_account_role, not_a_fee_role,
  no_pending_grid, not_the_fee_guardian_or_sentinel, not_the_fee_guardian,
}
use qlyphs_wallet.Operations.{
  HexId, zero_id, qlyphs_fee_account, mainnet, u32_max, Operation, FeeAdminOp, cancel, freeze,
  set_operator, set_guardian, set_sentinel,
}
use qlyphs_wallet.Fees.Rate.{require_rate, check_rate, step_num, step_den, fee, legacy_fee}

abbrev pub min_grace : ℕ
min_grace = 320

abbrev pub max_delay : ℕ
max_delay = 1_000_000

abbrev pub max_resets : ℕ
max_resets = 8

abbrev pub genesis_grid_index : ℕ
genesis_grid_index = 0xffffffff

-- Number.MAX_SAFE_INTEGER
abbrev pub max_safe : ℕ
max_safe = 9_007_199_254_740_991

pub record FeeReset : Type 0 where
  pub at : ℕ
  pub operator : HexId
  pub guardian : HexId
  pub sentinel : HexId

pub record FeeRules : Type 0 where
  pub from : ℕ
  pub operator : HexId
  pub guardian : HexId
  pub sentinel : HexId
  pub rate : ℕ
  pub delay : ℕ
  pub grace : ℕ
  pub guardian_delay : ℕ
  pub legacy_before : Bool
  pub resets : List FeeReset

pub record Grid : Type 0 where
  pub id : ℕ
  pub rate : ℕ
  pub effective : ℕ
  pub height : ℕ
  pub index : ℕ

pub record PendingRole : Type 0 where
  pub account : HexId
  pub effective : ℕ

pub record FeeState : Type 0 where
  pub operator : Option HexId
  pub guardian : HexId
  pub sentinel : HexId
  pub pending_operator : Option PendingRole
  pub pending_guardian : Option PendingRole
  pub current : Grid
  pub previous : Option Grid
  pub pending : Option Grid
  pub next_grid : ℕ
  pub next_reset : ℕ

-- `signer === account`, where the account may be null.
abbrev pub is_account : HexId → Option HexId → Bool
is_account a none = false
is_account a (some b) = a == b

-- `pending?.account`
abbrev pub account_of : Option PendingRole → Option HexId
account_of none = none
account_of (some p) = some p.account

-- `Number.isSafeInteger(v) && v >= min`
abbrev pub safe : ℕ → ℕ → Bool
safe v least = leb least v && leb v max_safe

unfoldable pub distinct_roles : HexId → HexId → HexId → Bool
distinct_roles operator guardian sentinel =
    not (operator == zero_id)
    && not (operator == qlyphs_fee_account)
    && (not (guardian == zero_id) && not (guardian == qlyphs_fee_account))
    && (not (sentinel == zero_id) && not (sentinel == qlyphs_fee_account))
    && (not (operator == guardian) && not (operator == sentinel) && not (guardian == sentinel))

unfoldable pub check_resets : ℕ → List FeeReset → Bool
check_resets last [] = true
check_resets last (r ∷ rs) =
    safe r.at 1
    && (ltb last r.at && leb r.at u32_max)
    && distinct_roles r.operator r.guardian r.sentinel
    && check_resets r.at rs

-- What `checkFeeRules` demands of the values of a rules object.
unfoldable pub check_fee_rules : FeeRules → Bool
check_fee_rules o =
    safe o.from 1
    && distinct_roles o.operator o.guardian o.sentinel
    && check_rate o.rate
    && (safe o.delay 1 && safe o.grace min_grace && safe o.guardian_delay o.delay)
    && (ltb o.grace o.delay && leb o.delay max_delay)
    && leb (o.from + 2 * o.guardian_delay) u32_max
    && leb (length o.resets) max_resets
    && check_resets o.from o.resets

pub data FeeMode : Type 0 where
  legacy schedule inactive : FeeMode

unfoldable pub fee_mode : Option FeeRules → HexId → ℕ → FeeMode
fee_mode none genesis h = if genesis == mainnet then inactive else legacy
fee_mode (some f) genesis h =
    if leb f.from h then schedule else if f.legacy_before then legacy else inactive

unfoldable pub genesis_fee_state : FeeRules → FeeState
genesis_fee_state rules = record {
  operator = some rules.operator;
  guardian = rules.guardian;
  sentinel = rules.sentinel;
  pending_operator = none;
  pending_guardian = none;
  current = record {
    id = 0;
    rate = rules.rate;
    effective = rules.from;
    height = rules.from;
    index = genesis_grid_index;
  };
  previous = none;
  pending = none;
  next_grid = 1;
  next_reset = 0;
}

unfoldable pub apply_reset : FeeReset → FeeState → FeeState
apply_reset r f = record f {
  operator = some r.operator;
  guardian = r.guardian;
  sentinel = r.sentinel;
  pending_operator = none;
  pending_guardian = none;
  pending = none;
  next_reset = suc f.next_reset;
}

-- The loop over `rules.resets[f.nextReset]`: each round reads the next reset, so it makes at most as
-- many rounds as there are resets, the fuel that it is given.
unfoldable pub resets_from : ℕ → List FeeReset → ℕ → FeeState → FeeState
resets_from zero resets h f = f
resets_from (suc fuel) resets h f = elim (get_elem? resets f.next_reset) [
  | none ↦ f
  | some r ↦ if leb r.at h then resets_from fuel resets h (apply_reset r f) else f
]

unfoldable pub install_guardian : ℕ → FeeState → FeeState
install_guardian h f = elim f.pending_guardian [
  | none ↦ f
  | some p ↦
      if leb p.effective h then record f { guardian = p.account; pending_guardian = none } else f
]

unfoldable pub install_operator : ℕ → FeeState → FeeState
install_operator h f = elim f.pending_operator [
  | none ↦ f
  | some p ↦
      if leb p.effective h
      then record f { operator = some p.account; pending_operator = none }
      else f
]

unfoldable pub install_grid : ℕ → FeeState → FeeState
install_grid h f = elim f.pending [
  | none ↦ f
  | some g ↦
      if leb g.effective h
      then record f { previous = some f.current; current = g; pending = none }
      else f
]

unfoldable pub drop_previous : FeeRules → ℕ → FeeState → FeeState
drop_previous rules h f = elim f.previous [
  | none ↦ f
  | some g ↦ if leb (f.current.effective + rules.grace) h then record f { previous = none } else f
]

-- What a block start does to a fee state that is there.
unfoldable pub step_state : FeeRules → ℕ → FeeState → FeeState
step_state rules h f = drop_previous rules h (
    install_grid h (
      install_operator h (install_guardian h (resets_from (length rules.resets) rules.resets h f))))

-- The block-start step for block `h`, before its receipts.
unfoldable pub step_fees : Option FeeState → Option FeeRules → ℕ → Result Refusal (Option FeeState)
step_fees fees none h = ok fees
step_fees fees (some rules) h =
    if ltb h rules.from
    then ok fees
    else if h == rules.from
    then ok (some (step_state rules h (genesis_fee_state rules)))
    else elim fees [ none ↦ err fee_state_missing | some f ↦ ok (some (step_state rules h f)) ]

-- `[...new Set(out)]` drops the amounts that stand earlier in the list.
unfoldable pub push_amount : List ℕ → ℕ → List ℕ
push_amount [] n = n ∷ []
push_amount (m ∷ ms) n = if m == n then m ∷ ms else m ∷ push_amount ms n

-- The amounts at the rate in force and at the previous one.
unfoldable pub grid_fees : FeeState → Operation → ℕ → Result Refusal (List ℕ)
grid_fees fees op now = elim fees.previous [
  | none ↦ ok (now ∷ [])
  | some g ↦ fee op g.rate >>= λ n. ok (push_amount (now ∷ []) n)
]

unfoldable pub allowed_fees : FeeState → FeeRules → Operation → ℕ → Result Refusal (List ℕ)
allowed_fees fees rules op h = do
  now ← fee op fees.current.rate
  before ← grid_fees fees op now
  if rules.legacy_before && ltb h (rules.from + rules.grace)
      then (legacy_fee op >>= λ n. ok (push_amount before n))
      else ok before

unfoldable pub effective_in : ℕ → ℕ → ℕ → Result Refusal (Unit {0})
effective_in effective p delay =
    require_that (leb (p + delay) effective && leb effective (p + 2 * delay))
      invalid_effective_height

-- FEE_RATE at inclusion height `p`, extrinsic `index`.
unfoldable pub apply_fee_rate :
    FeeState → FeeRules → HexId → (effective rate : ℕ) → ℕ → ℕ → Result Refusal FeeState
unfolding effective_in
apply_fee_rate fees rules signer effective rate p index = do
  require_that (elim fees.operator [ none ↦ false | some a ↦ true ]) fee_operator_frozen
  require_that (is_account signer fees.operator) not_the_fee_operator
  effective_in effective p rules.delay
  require_rate rate
  require_that
      (leb (step_den * rate) (step_num * fees.current.rate)
        && leb (step_den * fees.current.rate) (step_num * rate))
      rate_step_too_large
  require_that (ltb fees.next_grid u32_max) grid_ids_exhausted
  ok (record fees {
    pending = some (record {
      id = fees.next_grid;
      rate = rate;
      effective = effective;
      height = p;
      index = index;
    });
    next_grid = suc fees.next_grid;
  })

-- `requireThat(![...xs, ZERO, QLYPHS_FEE_ACCOUNT].includes(account), …)`
unfoldable pub excluded : HexId → List (Option HexId) → Result Refusal (Unit {0})
excluded account [] =
    require_that (not (account == zero_id) && not (account == qlyphs_fee_account))
      invalid_fee_account_role
excluded account (x ∷ xs) =
    if is_account account x then err invalid_fee_account_role else excluded account xs

-- FEE_ADMIN at inclusion height `p`.
unfoldable pub apply_fee_admin :
    FeeState → FeeRules → HexId → FeeAdminOp → ℕ → Result Refusal FeeState
unfolding effective_in
apply_fee_admin f rules signer cancel p = do
  require_that (is_account signer f.operator || signer == f.sentinel || signer == f.guardian)
      not_a_fee_role
  require_that (elim f.pending [ none ↦ false | some g ↦ true ]) no_pending_grid
  ok (record f { pending = none })
apply_fee_admin f rules signer freeze p = do
  require_that (signer == f.sentinel || signer == f.guardian) not_the_fee_guardian_or_sentinel
  ok (record f { operator = none; pending_operator = none; pending = none })
apply_fee_admin f rules signer (set_operator account effective) p = do
  require_that (signer == f.guardian) not_the_fee_guardian
  excluded account
      (f.operator ∷ some f.guardian ∷ some f.sentinel ∷ account_of f.pending_guardian ∷ [])
  effective_in effective p rules.delay
  ok (record f { pending_operator = some (record { account = account; effective = effective }) })
apply_fee_admin f rules signer (set_guardian account effective) p = do
  require_that (signer == f.guardian) not_the_fee_guardian
  if account == f.guardian then ok (record f { pending_guardian = none }) else (do
    excluded account (f.operator ∷ some f.sentinel ∷ account_of f.pending_operator ∷ [])
    effective_in effective p rules.guardian_delay
    ok (record f { pending_guardian = some (record { account = account; effective = effective }) }))
apply_fee_admin f rules signer (set_sentinel account) p = do
  require_that (signer == f.guardian) not_the_fee_guardian
  excluded account (
      f.operator
      ∷ some f.guardian
      ∷ some f.sentinel
      ∷ account_of f.pending_operator
      ∷ account_of f.pending_guardian
      ∷ [])
  ok (record f { sentinel = account })

abbrev pub u32 : ℕ → Bool
u32 n = leb n u32_max

-- The pattern of an id: 32 bytes.
abbrev pub is_id : HexId → Bool
is_id a = ltb a 0x10000000000000000000000000000000000000000000000000000000000000000

unfoldable pub grid_ok : Grid → Bool
grid_ok g = u32 g.id && check_rate g.rate && u32 g.effective && u32 g.height && u32 g.index
