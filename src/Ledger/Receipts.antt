-- ===== src/Ledger/Receipts.antt =====
-- `applyReceipt` of packages/native/src/protocol.ts: the multisigs that a receipt creates, the
-- operation it declares, the rights it uses and the tickets it ends, in this order.
use qlyphs_wallet.Prelude.{
  ℕ, Option, none, some, Bool, false, ◌&&◌, ◌||◌, not, List, [], ◌∷◌, ◌++◌, length, any_of, every,
  ◌==◌, if◌then◌else◌, Result, ok, err, require_that, ◌>>=◌, ◌>>◌,
}
use qlyphs_wallet.Prelude.Maps.{Pair, Entry, pair_key, number_key, get, set}
use qlyphs_wallet.Refusal.{Refusal, duplicate_right_use, duplicate_multisig, wrong_byte_length}
use qlyphs_wallet.Operations.{HexId, qlyphs_fee_account}
use qlyphs_wallet.Fees.State.{is_id}
use qlyphs_wallet.Progressive.Ticket.{Settlement, read_settlement}
use qlyphs_wallet.Wire.Calls.{Call}
use qlyphs_wallet.Wire.Parsing.{parse_call}
use qlyphs_wallet.Wire.Decoding.{DecodeOptions, decode}
use qlyphs_wallet.Ledger.Data.{
  State, Rules, Receipt, NativeEvent, multisig_event, Verdict, accepted, rejected,
  not_current_right, settlement_failed,
}
use qlyphs_wallet.Ledger.Offers.{absent}
use qlyphs_wallet.Ledger.Activation.{decode_options}
use qlyphs_wallet.Ledger.Context.{declared_payload, require_context, failed_fee_operation}
use qlyphs_wallet.Ledger.Apply.{apply_operation}
use qlyphs_wallet.Ledger.Rights.{ProgressiveLot, used_right, use_rights, rights_left, journaled}
use qlyphs_wallet.Ledger.Purchase.{end_tickets}

-- The state with the rights that a receipt has used so far.
pub record Tracked : Type 0 where
  pub state : State
  pub used : List ProgressiveLot

-- `rights ? usedRight(…) : undefined`
abbrev pub right_used :
    State
    → HexId
    → Option (List (Entry Pair HexId))
    → List HexId
    → ℕ
    → Option HexId
    → Option ℕ
    → Result Refusal (Option ProgressiveLot)
right_used s genesis none signers threshold creator number = ok none
right_used s genesis (some rights) signers threshold creator number =
    used_right s genesis rights signers threshold creator number

-- A creation that uses a right is kept with the used ones, any other as a multisig.
abbrev pub track :
    State
    → List ProgressiveLot
    → HexId
    → List HexId
    → ℕ
    → Option ProgressiveLot
    → Result Refusal Tracked
track s used id signers threshold (some lot) = do
  require_that (not (any_of (λ u. u.asset == lot.asset) used)) duplicate_right_use
  ok (record { state = s; used = used ++ (lot ∷ []) })
track s used id signers threshold none = do
  require_that (absent (get s.multisigs id)) duplicate_multisig
  require_that (is_id id && every is_id signers) wrong_byte_length
  ok (record {
    state = record s {
      multisigs = set s.multisigs id (record { signers = signers; threshold = threshold });
    };
    used = used;
  })

unfoldable pub track_multisigs :
    State
    → HexId
    → Option (List (Entry Pair HexId))
    → List ProgressiveLot
    → List NativeEvent
    → Result Refusal Tracked
track_multisigs s genesis rights used [] = ok (record { state = s; used = used })
track_multisigs s genesis rights used (multisig_event id signers threshold creator nonce ∷ es) = do
  lot ← right_used s genesis rights signers threshold creator nonce
  next ← track s used id signers threshold lot
  track_multisigs next.state genesis rights next.used es
track_multisigs s genesis rights used (e ∷ es) = track_multisigs s genesis rights used es

-- The body of the `try` on a call that declares a payload.
unfoldable pub attempt : State → HexId → Receipt → Rules → Call → List ℕ → Result Refusal State
attempt s genesis r rules call payload = do
  envelope ← decode (decode_options rules s.height) payload
  require_context r envelope.op call payload
      (record { genesis = genesis; rules = rules; height = s.height; fees = s.fees })
  apply_operation s genesis r envelope call rules

-- The operation was made on a copy: its state is taken only where it was accepted.
abbrev pub judged : State → Receipt → Result Refusal State → State
judged s r (err m) = journaled s r (rejected m)
judged s r (ok next) = journaled next r accepted

abbrev pub try_declared : State → HexId → Receipt → Rules → Call → Option (List ℕ) → State
try_declared s genesis r rules call none = s
try_declared s genesis r rules call (some payload) =
    judged s r (attempt s genesis r rules call payload)

-- A call outside the grammar is ordinary traffic.
abbrev pub try_operation : State → HexId → Receipt → Rules → Result Refusal Call → State
try_operation s genesis r rules (err m) = s
try_operation s genesis r rules (ok call) =
    try_declared s genesis r rules call (declared_payload call)

abbrev pub journal_failure : State → Receipt → Option Verdict → State
journal_failure s r none = s
journal_failure s r (some verdict) = journaled s r verdict

-- The operation of a receipt by its success and its signer.
unfoldable pub operate : State → HexId → Receipt → Rules → Option HexId → State
operate s genesis r rules none = s
operate s genesis r rules (some signer) =
    if r.success
    then try_operation s genesis r rules (parse_call 4 r.call_hex)
    else journal_failure s r (failed_fee_operation r (decode_options rules s.height))

abbrev pub pays_settlement : Option Settlement → Bool
pays_settlement none = false
pays_settlement (some x) = x.to == qlyphs_fee_account

-- The settlement shape without a current right.
abbrev pub stray_settlement : State → Receipt → Bool → Option HexId → State
stray_settlement s r progressive none = s
stray_settlement s r progressive (some signer) =
    if progressive && pays_settlement (read_settlement r.call_hex)
    then journaled s r (if r.success then not_current_right else settlement_failed)
    else s

pub record Applied : Type 0 where
  pub state : State
  pub rights : Option (List (Entry Pair HexId))

-- The rights of a receipt; without any in use, a settlement shape is written to the journal.
abbrev pub settle_rights :
    State
    → Receipt
    → Bool
    → Option (List (Entry Pair HexId))
    → List ProgressiveLot
    → Result Refusal Applied
settle_rights s r progressive (some rights) (lot ∷ used) = do
  next ← use_rights s r (length used == 0) (lot ∷ used)
  ok (record { state = next; rights = some (rights_left rights (lot ∷ used)) })
settle_rights s r progressive rights used =
    ok (record { state = stray_settlement s r progressive r.signer; rights = rights })

abbrev pub reads_progressive : DecodeOptions → Bool
reads_progressive tags = tags.progressive || tags.progressive_v2

unfoldable pub apply_receipt :
    State → HexId → Receipt → Rules → Option (List (Entry Pair HexId)) → Result Refusal Applied
apply_receipt s genesis r rules rights = do
  tracked ← track_multisigs s genesis rights [] r.events
  let operated = operate tracked.state genesis r rules r.signer
  righted ←
      settle_rights operated r (reads_progressive (decode_options rules s.height)) rights
        tracked.used
  ended ← end_tickets righted.state r r.events
  ok (record { state = ended; rights = righted.rights })
