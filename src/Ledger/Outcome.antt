-- ===== src/Ledger/Outcome.antt =====
-- What the operation of a receipt does to the state of packages/native/src/protocol.ts, from the call it
-- is read from to the balances and the journal.
use qlyphs_wallet.Prelude.{
  ℕ, none, some, true, false, List, [], ◌∷◌, ◌++◌, ◌≡◌, ok, err, if◌then◌else◌,
}
use qlyphs_wallet.Refusal.{Refusal}
use qlyphs_wallet.Operations.{HexId, Envelope}
use qlyphs_wallet.Fees.Rate.{is_fee_bearing}
use qlyphs_wallet.Wire.Calls.{Call}
use qlyphs_wallet.Wire.Parsing.{parse_call}
use qlyphs_wallet.Ledger.Data.{
  State, Rules, Receipt, Verdict, accepted, rejected, fee_batch_failed, extrinsic_failed,
}
use qlyphs_wallet.Ledger.Context.{declared_payload, is_batch}
use qlyphs_wallet.Ledger.Abstract.{Step, view}
use qlyphs_wallet.Ledger.Paid.{PaidFee}
use qlyphs_wallet.Ledger.Receipts.{attempt}
use qlyphs_wallet.Ledger.Failure.{Declares}

-- The state with one more entry in its journal, for the receipt at the height.
abbrev pub noted : State → Receipt → Verdict → State
noted s r v = record s {
  journal = s.journal ++ (record { height = s.height; index = r.index; verdict = v } ∷ []);
}

-- What the operation of a receipt comes to.
pub data Outcome (s : State) (genesis : HexId) (r : Receipt) (rules : Rules) : State → Type 0 where
  unsigned : r.signer ≡ none → Outcome s genesis r rules s
  unreadable :
      (m : Refusal)
      → r.success ≡ true
      → parse_call 4 r.call_hex ≡ err m
      → Outcome s genesis r rules s
  undeclared :
      (call : Call)
      → r.success ≡ true
      → parse_call 4 r.call_hex ≡ ok call
      → declared_payload call ≡ none
      → Outcome s genesis r rules s
  turned_down :
      (call : Call) (payload : List ℕ) (m : Refusal)
      → r.success ≡ true
      → parse_call 4 r.call_hex ≡ ok call
      → declared_payload call ≡ some payload
      → attempt s genesis r rules call payload ≡ err m
      → Outcome s genesis r rules (noted s r (rejected m))
  carried_out :
      (call : Call) (e : Envelope) (owner : HexId) (next : State)
      → r.success ≡ true
      → r.signer ≡ some owner
      → Declares s r rules call e
      → (is_fee_bearing e.op ≡ true
          → PaidFee r
              (record { genesis = genesis; rules = rules; height = s.height; fees = s.fees })
              e.op)
      → Step owner e.sequence e.op (view s) (view next)
      → next.height ≡ s.height
      → Outcome s genesis r rules (noted next r accepted)
  failed_with_fee :
      (call : Call) (e : Envelope)
      → r.success ≡ false
      → Declares s r rules call e
      → is_fee_bearing e.op ≡ true
      → Outcome s genesis r rules
          (noted s r (if is_batch call then fee_batch_failed else extrinsic_failed))
  failed_without_fee :
      r.success ≡ false
      → ((call : Call) (e : Envelope) → Declares s r rules call e → is_fee_bearing e.op ≡ false)
      → Outcome s genesis r rules s
