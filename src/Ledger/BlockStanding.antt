-- ===== src/Ledger/BlockStanding.antt =====
-- `apply` and `rollback` of packages/native/src/protocol.ts: a block that is not final can be undone.
use qlyphs_wallet.Prelude.{
  not, ℕ, ◌+◌, ◌>>=◌, Option, none, some, Bool, true, false, List, [], ◌∷◌, leb, ltb, length, ◌==◌,
  ◌≤◌, ◌&&◌, if◌then◌else◌, ◌≡◌, refl, sym, ap, ◌∙◌, arith, Result, ok, err, >>=-eq-ok,
  require_that-eq-ok, require_that-ok, ok-inj,
}
use qlyphs_wallet.Prelude.Maps.{Entry, Pair, number_key, text_key, pair_key, get}
use qlyphs_wallet.Refusal.{
  invalid_block_hash, invalid_finality, Refusal, wrong_byte_length, unordered_extrinsic,
  invariant_broken, unsupported_runtime, noncontiguous_block,
}
use qlyphs_wallet.Operations.{HexId}
use qlyphs_wallet.Fees.State.{step_fees, is_id, max_safe}
use qlyphs_wallet.Progressive.Ticket.{read_settlement}
use qlyphs_wallet.Wire.Calls.{Call}
use qlyphs_wallet.Wire.Parsing.{parse_call}
use qlyphs_wallet.Wire.Decoding.{decode}
use qlyphs_wallet.Ledger.Data.{
  State, Receipt, Rules, Ticket, NativeEvent, multisig_event, created_event, approved_event,
  closed_event, paid_event, remarked_event, batch_completed_event, Verdict, ticket_key,
}
use qlyphs_wallet.Ledger.Change.{release}
use qlyphs_wallet.Ledger.Apply.{apply_operation}
use qlyphs_wallet.Ledger.Supply.{is_locked}
use qlyphs_wallet.Ledger.LotRoom.{track_multisigs-WellTracked}
use qlyphs_wallet.Ledger.Activation.{decode_options}
use qlyphs_wallet.Ledger.Context.{
  FeeContext, declared_payload, require_context, failed_fee_operation,
}
use qlyphs_wallet.Ledger.Rights.{ProgressiveLot, settled_by, use_right, use_rights, righted}
use qlyphs_wallet.Ledger.Purchase.{
  is_purchase, settle, approve_ticket, when_locked, end_tickets, expire_tickets, expire_ticket,
}
use qlyphs_wallet.Ledger.Receipts.{
  track_multisigs, attempt, judged, try_declared, pays_settlement, try_operation, journal_failure,
  operate, stray_settlement, Applied, settle_rights, reads_progressive, apply_receipt,
}
use qlyphs_wallet.Ledger.Blocks.{
  Block, check_block, keys_of, block_rights, apply_receipts, block_state, ordered,
}
use qlyphs_wallet.Ledger.Invariants.{assert_invariants}
use qlyphs_wallet.Ledger.Standing.{
  position, apply_as-position, release-position, settle-position, use_right-position,
}

judged-position :
    (s : State) (genesis : HexId) (r : Receipt) (rules : Rules) (call : Call) (payload : List ℕ)
    (outcome : Result Refusal State)
    → attempt s genesis r rules call payload ≡ outcome
    → position (judged s r outcome) ≡ position s
unfolding attempt apply_operation
judged-position s genesis r rules call payload (err m) h = refl
judged-position s genesis r rules call payload (ok next) h =
    let e = >>=-eq-ok (decode (decode_options rules s.height) payload) _ h in
    let ctx : FeeContext = record {
      genesis = genesis;
      rules = rules;
      height = s.height;
      fees = s.fees;
    } in
    let fine = >>=-eq-ok (require_context r e.0.op call payload ctx) _ e.2 in
    apply_as-position s genesis r e.0 call rules r.signer fine.2

declared-position :
    (s : State) (genesis : HexId) (r : Receipt) (rules : Rules) (call : Call) (o : Option (List ℕ))
    → position (try_declared s genesis r rules call o) ≡ position s
declared-position s genesis r rules call none = refl
declared-position s genesis r rules call (some payload) =
    judged-position s genesis r rules call payload (attempt s genesis r rules call payload) refl

try_operation-position :
    (s : State) (genesis : HexId) (r : Receipt) (rules : Rules) (parsed : Result Refusal Call)
    → position (try_operation s genesis r rules parsed) ≡ position s
try_operation-position s genesis r rules (err m) = refl
try_operation-position s genesis r rules (ok call) =
    declared-position s genesis r rules call (declared_payload call)

journal_failure-position :
    (s : State) (r : Receipt) (o : Option Verdict) → position (journal_failure s r o) ≡ position s
journal_failure-position s r none = refl
journal_failure-position s r (some v) = refl

if-position :
    (s : State) (b : Bool) (x y : State)
    → position x ≡ position s
    → position y ≡ position s
    → position (if b then x else y) ≡ position s
if-position s true x y ex ey = ex
if-position s false x y ex ey = ey

operate-position :
    (s : State) (genesis : HexId) (r : Receipt) (rules : Rules) (signer : Option HexId)
    → position (operate s genesis r rules signer) ≡ position s
unfolding operate
operate-position s genesis r rules none = refl
operate-position s genesis r rules (some signer) =
    if-position s r.success _ _ (try_operation-position s genesis r rules (parse_call 4 r.call_hex))
      (journal_failure-position s r (failed_fee_operation r (decode_options rules s.height)))

stray-position :
    (s : State) (r : Receipt) (progressive : Bool) (signer : Option HexId)
    → position (stray_settlement s r progressive signer) ≡ position s
stray-position s r progressive none = refl
stray-position s r progressive (some signer) =
    if-position s (progressive && pays_settlement (read_settlement r.call_hex)) _ _ refl refl

use_rights-position :
    (s : State) (r : Receipt) (alone : Bool) (used : List ProgressiveLot) {s' : State}
    → use_rights s r alone used ≡ ok s'
    → position s' ≡ position s
unfolding use_rights
use_rights-position s r alone [] h = sym (ap position (ok-inj h))
use_rights-position s r alone (lot ∷ used) h =
    let a = >>=-eq-ok (righted (get s.assets lot.asset)) _ h in
    let next = >>=-eq-ok (use_right s r lot a.0 (settled_by r alone lot r.signer)) _ a.2 in
    use_rights-position next.0 r alone used next.2
    ∙ use_right-position s r lot a.0 (settled_by r alone lot r.signer) next.1

settle_rights-position :
    (s : State) (r : Receipt) (progressive : Bool) (rights : Option (List (Entry Pair HexId)))
    (used : List ProgressiveLot) {x : Applied}
    → settle_rights s r progressive rights used ≡ ok x
    → position x.state ≡ position s
settle_rights-position s r progressive none used h =
    sym (ap (λ z. position z.state) (ok-inj h)) ∙ stray-position s r progressive r.signer
settle_rights-position s r progressive (some rights) [] h =
    sym (ap (λ z. position z.state) (ok-inj h)) ∙ stray-position s r progressive r.signer
settle_rights-position s r progressive (some rights) (lot ∷ used) h =
    let next = >>=-eq-ok (use_rights s r (length used == 0) (lot ∷ used)) _ h in
    sym (ap (λ z. position z.state) (ok-inj next.2))
    ∙ use_rights-position s r (length used == 0) (lot ∷ used) next.1

bought-position :
    (s : State) (k : Pair) (r : Receipt) (t : Ticket) (bought : Bool) {s' : State}
    → (if bought then settle s k r t else release s k t) ≡ ok s'
    → position s' ≡ position s
bought-position s k r t true h = settle-position s k r t h
bought-position s k r t false h = release-position s k t h

approved-position :
    (s : State) (k : Pair) (r : Receipt) (t : Ticket) (by_buyer : Bool) {s' : State}
    → (if by_buyer
        then (is_purchase r t >>= λ bought. if bought then settle s k r t else release s k t)
        else ok s)
      ≡ ok s'
    → position s' ≡ position s
approved-position s k r t false h = sym (ap position (ok-inj h))
approved-position s k r t true h =
    let bought = >>=-eq-ok (is_purchase r t) _ h in bought-position s k r t bought.0 bought.2

-- A step that is taken or left out.
optional-position :
    (s : State) (b : Bool) (step : Result Refusal State) {s' : State}
    → ((after : State) → step ≡ ok after → position after ≡ position s)
    → (if b then step else ok s) ≡ ok s'
    → position s' ≡ position s
optional-position s true step {s'} kept h = kept s' h
optional-position s false step kept h = sym (ap position (ok-inj h))

when_locked-position :
    (s : State) (o : Option Ticket) (act : Ticket → Result Refusal State) {s' : State}
    → ((t : Ticket) (after : State) → act t ≡ ok after → position after ≡ position s)
    → when_locked s o act ≡ ok s'
    → position s' ≡ position s
when_locked-position s none act kept h = sym (ap position (ok-inj h))
when_locked-position s (some t) act kept h =
    optional-position s (is_locked t.status) (act t) (kept t) h

end_tickets-position :
    (s : State) (r : Receipt) (es : List NativeEvent) {s' : State}
    → end_tickets s r es ≡ ok s'
    → position s' ≡ position s
unfolding end_tickets approve_ticket
end_tickets-position s r [] h = sym (ap position (ok-inj h))
end_tickets-position s r (approved_event m p approver ∷ es) h =
    let k = ticket_key m p in
    let next =
      >>=-eq-ok (when_locked s (get s.tickets k) (λ t. approve_ticket s k r t approver)) _ h in
    end_tickets-position next.0 r es next.2
    ∙ when_locked-position s (get s.tickets k) (λ t. approve_ticket s k r t approver)
        (λ t after done. approved-position s k r t (approver == t.offer.buyer) done) next.1
end_tickets-position s r (closed_event m p ∷ es) h =
    let k = ticket_key m p in
    let next = >>=-eq-ok (when_locked s (get s.tickets k) (λ t. release s k t)) _ h in
    end_tickets-position next.0 r es next.2
    ∙ when_locked-position s (get s.tickets k) (λ t. release s k t)
        (λ t after done. release-position s k t done) next.1
end_tickets-position s r (multisig_event i ss t c n ∷ es) h = end_tickets-position s r es h
end_tickets-position s r (created_event m p o ∷ es) h = end_tickets-position s r es h
end_tickets-position s r (paid_event p t a ∷ es) h = end_tickets-position s r es h
end_tickets-position s r (remarked_event p ∷ es) h = end_tickets-position s r es h
end_tickets-position s r (batch_completed_event ∷ es) h = end_tickets-position s r es h

expire_ticket-position :
    (s : State) (k : Pair) (o : Option Ticket) {s' : State}
    → expire_ticket s k o ≡ ok s'
    → position s' ≡ position s
expire_ticket-position s k none h = sym (ap position (ok-inj h))
expire_ticket-position s k (some t) h =
    optional-position s (ltb t.offer.expiry s.height) (release s k t)
      (λ after done. release-position s k t done) h

expire_tickets-position :
    (s : State) (ks : List Pair) {s' : State}
    → expire_tickets s ks ≡ ok s'
    → position s' ≡ position s
unfolding expire_tickets
expire_tickets-position s [] h = sym (ap position (ok-inj h))
expire_tickets-position s (k ∷ ks) h =
    let next = >>=-eq-ok (expire_ticket s k (get s.tickets k)) _ h in
    expire_tickets-position next.0 ks next.2 ∙ expire_ticket-position s k (get s.tickets k) next.1

apply_receipt-position :
    (s : State) (genesis : HexId) (r : Receipt) (rules : Rules)
    (rights : Option (List (Entry Pair HexId))) {x : Applied}
    → apply_receipt s genesis r rules rights ≡ ok x
    → position x.state ≡ position s
unfolding apply_receipt
apply_receipt-position s genesis r rules rights h =
    let tracked = >>=-eq-ok (track_multisigs s genesis rights [] r.events) _ h in
    let seen = track_multisigs-WellTracked s genesis rights [] r.events (omega arith) tracked.1 in
    let operated = operate tracked.0.state genesis r rules r.signer in
    let progressive = reads_progressive (decode_options rules s.height) in
    let settled =
      >>=-eq-ok (settle_rights operated r progressive rights tracked.0.used) _ tracked.2 in
    let ended = >>=-eq-ok (end_tickets settled.0.state r r.events) _ settled.2 in
    sym (ap (λ z. position z.state) (ok-inj ended.2))
    ∙ end_tickets-position settled.0.state r r.events ended.1
    ∙ settle_rights-position operated r progressive rights tracked.0.used settled.1
    ∙ operate-position tracked.0.state genesis r rules r.signer
    ∙ seen.stands

apply_receipts-position :
    (s : State) (genesis : HexId) (rules : Rules) (rights : Option (List (Entry Pair HexId)))
    (last : Option ℕ) (rs : List Receipt) {s' : State}
    → apply_receipts s genesis rules rights last rs ≡ ok s'
    → position s' ≡ position s
unfolding apply_receipts
apply_receipts-position s genesis rules rights last [] h = sym (ap position (ok-inj h))
apply_receipts-position s genesis rules rights last (r ∷ rs) h =
    let one = require_that-eq-ok (ordered last r.index) unordered_extrinsic _ h in
    let two = require_that-eq-ok (is_id r.hash) wrong_byte_length _ one.1 in
    let applied = >>=-eq-ok (apply_receipt s genesis r rules rights) _ two.1 in
    let fine =
      require_that-eq-ok (assert_invariants applied.0.state false rules) invariant_broken _
        applied.2 in
    apply_receipts-position applied.0.state genesis rules applied.0.rights (some r.index) rs fine.1
    ∙ apply_receipt-position s genesis r rules rights applied.1

-- The state after a block stands at the block.
pub block_state-position :
    (s : State) (genesis : HexId) (rules : Rules) (b : Block) {s' : State}
    → block_state s genesis rules b ≡ ok s'
    → position s' ≡ record { height = b.height; hash = b.hash; finalized = b.finalized }
unfolding block_state
block_state-position s genesis rules b h =
    let checked = >>=-eq-ok (check_block s b) _ h in
    let opened = record s { height = b.height; hash = b.hash; finalized = b.finalized } in
    let expired = >>=-eq-ok (expire_tickets opened (keys_of opened.tickets)) _ checked.2 in
    let fees = >>=-eq-ok (step_fees expired.0.fees rules.fee_schedule b.height) _ expired.2 in
    let stepped = record expired.0 { fees = fees.0 } in
    let rights = >>=-eq-ok (block_rights stepped genesis rules b) _ fees.2 in
    let next =
      >>=-eq-ok (apply_receipts stepped genesis rules rights.0 none b.receipts) _ rights.2 in
    let fine = require_that-eq-ok (assert_invariants next.0 true rules) invariant_broken _ next.2 in
    sym (ap position (ok-inj fine.1))
    ∙ apply_receipts-position stepped genesis rules rights.0 none b.receipts next.1
    ∙ expire_tickets-position opened (keys_of opened.tickets) expired.1

-- A block that is applied is the next one, and does not make a later one final.
pub block_state_next :
    (s : State) (genesis : HexId) (rules : Rules) (b : Block) {s' : State}
    → block_state s genesis rules b ≡ ok s'
    → (b.height ≡ s.height + 1) × (b.parent ≡ s.hash) × (b.finalized ≤ b.height)
unfolding block_state check_block
block_state_next s genesis rules b h =
    let checked = >>=-eq-ok (check_block s b) _ h in
    let one =
      require_that-eq-ok (b.spec == 152 && b.tx_version == 6) unsupported_runtime _ checked.1 in
    let two =
      require_that-eq-ok (leb b.height max_safe && b.height == s.height + 1 && b.parent == s.hash)
        noncontiguous_block _ one.1 in
    let three = require_that-eq-ok (is_id b.hash) wrong_byte_length _ two.1 in
    let four = require_that-eq-ok (not (b.hash == b.parent)) invalid_block_hash _ three.1 in
    let five =
      require_that-ok (leb s.finalized b.finalized && leb b.finalized b.height) invalid_finality
        four.1 in
    (ground (arith, two.0), ground (arith, two.0), ground (arith, five))
