-- ===== src/Ledger/BlockSupply.antt =====
-- The receipts of packages/native/src/protocol.ts and the supply of every asset.
use qlyphs_wallet.Prelude.{
  ℕ, Option, none, some, Bool, true, false, List, [], ◌∷◌, length, ◌==◌, ◌&&◌, if◌then◌else◌, ◌≡◌,
  refl, sym, subst, arith, Result, ok, err, >>=-eq-ok, ok-inj,
}
use qlyphs_wallet.Prelude.Maps.{Entry, Pair, number_key, text_key, pair_key}
use qlyphs_wallet.Refusal.{Refusal}
use qlyphs_wallet.Operations.{HexId}
use qlyphs_wallet.Progressive.Ticket.{read_settlement}
use qlyphs_wallet.Wire.Calls.{Call}
use qlyphs_wallet.Wire.Parsing.{parse_call}
use qlyphs_wallet.Wire.Decoding.{decode}
use qlyphs_wallet.Ledger.Data.{State, Receipt, Rules, Verdict, rejected, accepted}
use qlyphs_wallet.Ledger.Supply.{Sound}
use qlyphs_wallet.Ledger.Conservation.{apply_operation-Sound}
use qlyphs_wallet.Ledger.LotRoom.{AllOpen, AllOpen-LotsKept, track_multisigs-WellTracked}
use qlyphs_wallet.Ledger.LotsKept.{LotsKept, apply_operation-LotsKept}
use qlyphs_wallet.Ledger.Activation.{decode_options}
use qlyphs_wallet.Ledger.Context.{
  FeeContext, declared_payload, require_context, failed_fee_operation,
}
use qlyphs_wallet.Ledger.Rights.{ProgressiveLot, journaled, use_rights}
use qlyphs_wallet.Ledger.Purchase.{end_tickets}
use qlyphs_wallet.Ledger.Receipts.{
  track_multisigs, attempt, judged, try_declared, pays_settlement, try_operation, journal_failure,
  operate, stray_settlement, Applied, settle_rights, reads_progressive, apply_receipt,
}
use qlyphs_wallet.Ledger.SupplyKept.{same-Sound, use_rights-Sound, end_tickets-Sound}

-- An operation conserves the supply and leaves the progressive assets alone.
abbrev Carried : State → State → Type 0
Carried s s' = (Sound s → Sound s') × LotsKept s.assets s'.assets

journaled-Carried :
    (s next : State) (r : Receipt) (v : Verdict) → Carried s next → Carried s (journaled next r v)
journaled-Carried s next r v carried =
    (λ sound. same-Sound next (journaled next r v) refl refl refl (carried.0 sound), carried.1)

unchanged : (s : State) → Carried s s
unchanged s = (λ sound. sound, λ id a found lots. found)

judged-Carried :
    (s : State) (genesis : HexId) (r : Receipt) (rules : Rules) (call : Call) (payload : List ℕ)
    (outcome : Result Refusal State)
    → attempt s genesis r rules call payload ≡ outcome
    → Carried s (judged s r outcome)
unfolding attempt
judged-Carried s genesis r rules call payload (err m) h =
    journaled-Carried s s r (rejected m) (unchanged s)
judged-Carried s genesis r rules call payload (ok next) h =
    let e = >>=-eq-ok (decode (decode_options rules s.height) payload) _ h in
    let ctx : FeeContext = record {
      genesis = genesis;
      rules = rules;
      height = s.height;
      fees = s.fees;
    } in
    let fine = >>=-eq-ok (require_context r e.0.op call payload ctx) _ e.2 in
    journaled-Carried s next r accepted (
      λ sound. apply_operation-Sound s genesis r e.0 call rules sound fine.2,
      apply_operation-LotsKept s genesis r e.0 call rules fine.2,
    )

declared-Carried :
    (s : State) (genesis : HexId) (r : Receipt) (rules : Rules) (call : Call) (o : Option (List ℕ))
    → Carried s (try_declared s genesis r rules call o)
declared-Carried s genesis r rules call none = unchanged s
declared-Carried s genesis r rules call (some payload) =
    judged-Carried s genesis r rules call payload (attempt s genesis r rules call payload) refl

try_operation-Carried :
    (s : State) (genesis : HexId) (r : Receipt) (rules : Rules) (parsed : Result Refusal Call)
    → Carried s (try_operation s genesis r rules parsed)
try_operation-Carried s genesis r rules (err m) = unchanged s
try_operation-Carried s genesis r rules (ok call) =
    declared-Carried s genesis r rules call (declared_payload call)

journal_failure-Carried :
    (s : State) (r : Receipt) (o : Option Verdict) → Carried s (journal_failure s r o)
journal_failure-Carried s r none = unchanged s
journal_failure-Carried s r (some v) = journaled-Carried s s r v (unchanged s)

if-Carried :
    (s : State) (b : Bool) {x y : State}
    → Carried s x
    → Carried s y
    → Carried s (if b then x else y)
if-Carried s true cx cy = cx
if-Carried s false cx cy = cy

pub operate-Carried :
    (s : State) (genesis : HexId) (r : Receipt) (rules : Rules) (signer : Option HexId)
    → Carried s (operate s genesis r rules signer)
unfolding operate
operate-Carried s genesis r rules none = unchanged s
operate-Carried s genesis r rules (some signer) =
    if-Carried s r.success (try_operation-Carried s genesis r rules (parse_call 4 r.call_hex))
      (journal_failure-Carried s r (failed_fee_operation r (decode_options rules s.height)))

stray-Sound :
    (s : State) (r : Receipt) (progressive : Bool) (signer : Option HexId)
    → Sound s
    → Sound (stray_settlement s r progressive signer)
stray-Sound s r progressive none sound = sound
stray-Sound s r progressive (some signer) sound =
    (if-Carried s (progressive && pays_settlement (read_settlement r.call_hex))
        (journaled-Carried s s r _ (unchanged s)) (unchanged s)).0
      sound

settle_rights-Sound :
    (s : State) (r : Receipt) (progressive : Bool) (rights : Option (List (Entry Pair HexId)))
    (used : List ProgressiveLot) {x : Applied}
    → Sound s
    → AllOpen s.assets used
    → settle_rights s r progressive rights used ≡ ok x
    → Sound x.state
settle_rights-Sound s r progressive none used sound all h =
    subst (λ z. Sound z.state) (ok-inj h) (stray-Sound s r progressive r.signer sound)
settle_rights-Sound s r progressive (some rights) [] sound all h =
    subst (λ z. Sound z.state) (ok-inj h) (stray-Sound s r progressive r.signer sound)
settle_rights-Sound s r progressive (some rights) (lot ∷ used) sound all h =
    let next = >>=-eq-ok (use_rights s r (length used == 0) (lot ∷ used)) _ h in
    subst (λ z. Sound z.state) (ok-inj next.2) (use_rights-Sound s r lot used sound all.0 next.1)

-- A receipt that is applied conserves the supply of every asset and keeps it within its cap, whatever
-- the receipt holds: creations of multisigs, an operation, uses of progressive rights, purchases,
-- approvals and closings of offers. If in the state before it what accounts hold and open tickets lock
-- of each asset was what was minted of it, and no more than its cap, then so it is in the state after
-- it. The receipt is applied without the assertion of the invariants that follows it in a block.
pub apply_receipt-Sound :
    (s : State) (genesis : HexId) (r : Receipt) (rules : Rules)
    (rights : Option (List (Entry Pair HexId))) {x : Applied}
    → Sound s
    → apply_receipt s genesis r rules rights ≡ ok x
    → Sound x.state
unfolding apply_receipt
apply_receipt-Sound s genesis r rules rights sound h =
    let tracked = >>=-eq-ok (track_multisigs s genesis rights [] r.events) _ h in
    let seen = track_multisigs-WellTracked s genesis rights [] r.events (omega arith) tracked.1 in
    let t = tracked.0.state in
    let sound_t = same-Sound s t seen.assets seen.balances seen.tickets sound in
    let done = operate-Carried t genesis r rules r.signer in
    let operated = operate t genesis r rules r.signer in
    let settled =
      >>=-eq-ok
        (settle_rights operated r (reads_progressive (decode_options rules s.height)) rights
          tracked.0.used)
        _ tracked.2 in
    let room =
      AllOpen-LotsKept t.assets operated.assets tracked.0.used done.1
        (subst (λ m. AllOpen m tracked.0.used) (sym seen.assets) seen.open_lots) in
    let sound_s =
      settle_rights-Sound operated r (reads_progressive (decode_options rules s.height)) rights
        tracked.0.used (done.0 sound_t) room settled.1 in
    let ended = >>=-eq-ok (end_tickets settled.0.state r r.events) _ settled.2 in
    subst (λ z. Sound z.state) (ok-inj ended.2)
      (end_tickets-Sound settled.0.state r r.events sound_s ended.1)
