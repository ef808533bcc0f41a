-- ===== src/Ledger/Blocks.antt =====
-- `NativeIndexer` of packages/native/src/protocol.ts: `apply`, `rollback` and `prepareBuy`.
use qlyphs_wallet.Prelude.{
  ℕ, ◌+◌, ◌-◌, Option, none, some, Bool, true, false, ◌&&◌, ◌||◌, not, List, [], ◌∷◌, length, drop,
  any_of, leb, ltb, ◌==◌, if◌then◌else◌, Result, ok, err, require_that, ◌>>=◌, ◌>>◌,
}
use qlyphs_wallet.Prelude.Maps.{Pair, Entry, pair_key, number_key, get, set}
use qlyphs_wallet.Refusal.{
  Refusal, unsupported_runtime, noncontiguous_block, invalid_block_hash, invalid_finality,
  unordered_extrinsic, invariant_broken, cannot_roll_back_final, unknown_rollback,
  not_a_live_ticket, not_finalized, expired_ticket, wrong_byte_length,
}
use qlyphs_wallet.Operations.{HexId}
use qlyphs_wallet.Fees.State.{step_fees, max_safe, is_id}
use qlyphs_wallet.Wire.Calls.{call_bytes}
use qlyphs_wallet.Ledger.Data.{State, Rules, Receipt, NativeEvent, multisig_event, Ticket}
use qlyphs_wallet.Ledger.Supply.{is_locked}
use qlyphs_wallet.Ledger.Activation.{progressive_active, progressive_v2_active}
use qlyphs_wallet.Ledger.Rights.{rights_by_pair}
use qlyphs_wallet.Ledger.Purchase.{buy_call, expire_tickets}
use qlyphs_wallet.Ledger.Receipts.{apply_receipt}
use qlyphs_wallet.Ledger.Invariants.{assert_invariants}

pub record Block : Type 0 where
  pub height : ℕ
  pub hash : HexId
  pub parent : HexId
  pub spec : ℕ
  pub tx_version : ℕ
  pub finalized : ℕ
  pub receipts : List Receipt

pub record NativeIndexer : Type 0 where
  pub current : State
  pub history : List (Entry ℕ State)
  pub genesis : HexId
  pub rules : Rules
  pub retain_history : Bool

-- What a block must satisfy to follow the current state.
unfoldable pub check_block : State → Block → Result Refusal (Unit {0})
check_block old b = do
  require_that (b.spec == 152 && b.tx_version == 6) unsupported_runtime
  require_that (leb b.height max_safe && b.height == old.height + 1 && b.parent == old.hash)
      noncontiguous_block
  require_that (is_id b.hash) wrong_byte_length
  require_that (not (b.hash == b.parent)) invalid_block_hash
  require_that (leb old.finalized b.finalized && leb b.finalized b.height) invalid_finality

abbrev pub keys_of {ℓ} : {V : Type ℓ} → List (Entry Pair V) → List Pair
keys_of [] = []
keys_of (e ∷ m) = e.key ∷ keys_of m

abbrev pub creates_pair : NativeEvent → Bool
creates_pair (multisig_event id signers threshold creator number) =
    threshold == 2 && length signers == 2
creates_pair e = false

-- The rights, for a block that creates a multisig of two signers.
abbrev pub block_rights :
    State → HexId → Rules → Block → Result Refusal (Option (List (Entry Pair HexId)))
block_rights s genesis rules b =
    if (progressive_active rules b.height || progressive_v2_active rules b.height)
      && any_of (λ r. any_of creates_pair r.events) b.receipts
    then (rights_by_pair s genesis >>= λ rights. ok (some rights))
    else ok none

-- `r.index > last`, where none was read yet.
abbrev pub ordered : Option ℕ → ℕ → Bool
ordered none index = true
ordered (some last) index = ltb last index

-- The loop over the receipts of a block.
unfoldable pub apply_receipts :
    State
    → HexId
    → Rules
    → Option (List (Entry Pair HexId))
    → Option ℕ
    → List Receipt
    → Result Refusal State
apply_receipts s genesis rules rights last [] = ok s
apply_receipts s genesis rules rights last (r ∷ rs) = do
  require_that (ordered last r.index) unordered_extrinsic
  require_that (is_id r.hash) wrong_byte_length
  applied ← apply_receipt s genesis r rules rights
  require_that (assert_invariants applied.state false rules) invariant_broken
  apply_receipts applied.state genesis rules applied.rights (some r.index) rs

abbrev pub bounded_journal : State → State
bounded_journal s = record s {
  journal =
      if ltb 10000 (length s.journal) then drop (length s.journal - 10000) s.journal else s.journal;
}

-- The state after a block.
unfoldable pub block_state : State → HexId → Rules → Block → Result Refusal State
block_state old genesis rules b = do
  check_block old b
  let opened = record old { height = b.height; hash = b.hash; finalized = b.finalized }
  expired ← expire_tickets opened (keys_of opened.tickets)
  fees ← step_fees expired.fees rules.fee_schedule b.height
  let stepped = record expired { fees = fees }
  rights ← block_rights stepped genesis rules b
  next ← apply_receipts stepped genesis rules rights none b.receipts
  require_that (assert_invariants next true rules) invariant_broken
  ok (bounded_journal next)

-- The entries from a height on, and those up to a height.
abbrev pub from_height : ℕ → List (Entry ℕ State) → List (Entry ℕ State)
from_height n [] = []
from_height n (e ∷ m) = let rest = from_height n m in if ltb e.key n then rest else e ∷ rest

abbrev pub up_to_height : ℕ → List (Entry ℕ State) → List (Entry ℕ State)
up_to_height n [] = []
up_to_height n (e ∷ m) = let rest = up_to_height n m in if ltb n e.key then rest else e ∷ rest

-- `apply`
unfoldable pub apply_block : NativeIndexer → Block → Result Refusal NativeIndexer
apply_block x b = do
  s ← block_state x.current x.genesis x.rules b
  let kept = if x.retain_history then x.history else []
  ok (record x { current = s; history = from_height s.finalized (set kept s.height s) })

abbrev pub roll_to : NativeIndexer → ℕ → HexId → Option State → Result Refusal NativeIndexer
roll_to x height expected_hash none = err unknown_rollback
roll_to x height expected_hash (some s) = do
  require_that (s.hash == expected_hash) unknown_rollback
  ok (record x {
    current = record s { finalized = x.current.finalized };
    history = up_to_height height x.history;
  })

unfoldable pub rollback : NativeIndexer → ℕ → HexId → Result Refusal NativeIndexer
rollback x height expected_hash = do
  require_that (leb x.current.finalized height) cannot_roll_back_final
  roll_to x height expected_hash (get x.history height)

abbrev pub buy_ticket : State → HexId → Option Ticket → Result Refusal (List ℕ)
buy_ticket s buyer none = err not_a_live_ticket
buy_ticket s buyer (some t) = do
  require_that (is_locked t.status && t.offer.buyer == buyer) not_a_live_ticket
  require_that (leb t.created_height s.finalized) not_finalized
  require_that (leb s.height t.offer.expiry) expired_ticket
  call ← buy_call t
  call_bytes call

-- `prepareBuy`
unfoldable pub prepare_buy : NativeIndexer → Pair → HexId → Result Refusal (List ℕ)
prepare_buy x key buyer = buy_ticket x.current buyer (get x.current.tickets key)
