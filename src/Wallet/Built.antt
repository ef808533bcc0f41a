-- ===== src/Wallet/Built.antt =====
-- A call that packages/native/src/commands.ts builds for an operation is read by the reducer as that
-- operation.
use qlyphs_wallet.Prelude.{
  ℕ, ◌≤◌, Option, some, true, not, List, ◌++◌, length, leb, ◌==◌, ◌≡◌, refl, subst, arith, ok,
  >>=-eq-ok, require_that-eq-ok, ok-inj, leb→le, same_text,
}
use qlyphs_wallet.Refusal.{payload_too_large, zero_account, governance_is_no_command}
use qlyphs_wallet.Operations.{
  zero_id, Operation, deploy, mint, transfer, offer, inscribe, deploy_progressive,
  deploy_progressive_v2, fee_rate, fee_admin, Envelope,
}
use qlyphs_wallet.Progressive.Quote.{v1, v2, progressive_mint_quote}
use qlyphs_wallet.Wire.Bytes.{uint, id_bytes, low_bytes}
use qlyphs_wallet.Wire.Calls.{Call, remark}
use qlyphs_wallet.Wire.Fields.{max_payload}
use qlyphs_wallet.Wire.Payload.{encode, operation_bytes, protocol_header}
use qlyphs_wallet.Wire.Parsing.{parse_call}
use qlyphs_wallet.Wire.CallTrip.{Readable, parse_call-call_bytes}
use qlyphs_wallet.Wire.Decoding.{DecodeOptions, decode}
use qlyphs_wallet.Wire.Trip.{Enabled}
use qlyphs_wallet.Wire.PayloadTrip.{decode-encode}
use qlyphs_wallet.Ledger.Data.{Ticket}
use qlyphs_wallet.Ledger.Context.{starts_with_header, fee_batch_call, declared_payload}
use qlyphs_wallet.Ledger.Rights.{ProgressiveLot}
use qlyphs_wallet.Wallet.Commands.{
  user_operation, FeeBasis, operation_fee, fee_call, remark_call, operation_call, command_call,
  is_wallet_command, require_signable, build_call,
}

header_starts :
    (rest : List ℕ) {header : List ℕ}
    → id_bytes protocol_header 5 ≡ ok header
    → starts_with_header (header ++ rest) ≡ true
unfolding id_bytes low_bytes same_text
header_starts rest h = subst (λ x. starts_with_header (x ++ rest) ≡ true) (ok-inj h) refl

encode-headed :
    (e : Envelope) {payload : List ℕ}
    → encode e ≡ ok payload
    → (starts_with_header payload ≡ true) × (length payload ≤ 1024)
unfolding encode
encode-headed e h =
    let header = >>=-eq-ok (id_bytes protocol_header 5) _ h in
    let genesis = >>=-eq-ok (id_bytes e.genesis 32) _ header.2 in
    let sequence = >>=-eq-ok (uint e.sequence 8) _ genesis.2 in
    let op = >>=-eq-ok (operation_bytes e.op) _ sequence.2 in
    let all = header.0 ++ (genesis.0 ++ (sequence.0 ++ op.0)) in
    let sized = require_that-eq-ok (leb (length all) max_payload) payload_too_large _ op.2 in
    (
      subst (λ xs. starts_with_header xs ≡ true) (ok-inj sized.1)
          (header_starts (genesis.0 ++ (sequence.0 ++ op.0)) header.1),
      subst (λ xs. length xs ≤ 1024) (ok-inj sized.1) (leb→le (length all) 1024 sized.0),
    )

-- The call is read, its payload is declared, and the payload is the operation.
pub record ReadAs (options : DecodeOptions) (e : Envelope) (bs : List ℕ) : Type 0 where
  pub call : Call
  pub payload : List ℕ
  pub parsed : parse_call 4 bs ≡ ok call
  pub declared : declared_payload call ≡ some payload
  pub decoded : decode options payload ≡ ok e

fee_call-ReadAs :
    (options : DecodeOptions) (genesis sequence : ℕ) (op : Operation) (basis : Option FeeBasis)
    {bs : List ℕ}
    → Enabled options op
    → length bs ≤ 4096
    → fee_call genesis sequence op basis ≡ ok bs
    → ReadAs options (record { genesis = genesis; sequence = sequence; op = op }) bs
unfolding Readable declared_payload
fee_call-ReadAs options genesis sequence op basis on short h =
    let e : Envelope = record { genesis = genesis; sequence = sequence; op = op } in
    let payload = >>=-eq-ok (encode e) _ h in
    let paid = >>=-eq-ok (operation_fee op basis) _ payload.2 in
    let shape = encode-headed e payload.1 in
    record {
      call = fee_batch_call payload.0 paid.0;
      payload = payload.0;
      parsed =
          parse_call-call_bytes 4 (fee_batch_call payload.0 paid.0)
            (refl, (shape.1, (omega arith, omega arith))) paid.2 short;
      declared = rw shape.0 refl;
      decoded = decode-encode options e on payload.1;
    }

remark_call-ReadAs :
    (options : DecodeOptions) (genesis sequence : ℕ) (op : Operation) {bs : List ℕ}
    → Enabled options op
    → length bs ≤ 4096
    → remark_call genesis sequence op ≡ ok bs
    → ReadAs options (record { genesis = genesis; sequence = sequence; op = op }) bs
unfolding Readable declared_payload remark_call
remark_call-ReadAs options genesis sequence op on short h =
    let e : Envelope = record { genesis = genesis; sequence = sequence; op = op } in
    let payload = >>=-eq-ok (encode e) _ h in
    let shape = encode-headed e payload.1 in
    record {
      call = remark payload.0 true;
      payload = payload.0;
      parsed = parse_call-call_bytes 4 (remark payload.0 true) shape.1 payload.2 short;
      declared = rw shape.0 refl;
      decoded = decode-encode options e on payload.1;
    }

operation_call-ReadAs :
    (options : DecodeOptions) (genesis sequence : ℕ) (op : Operation) (basis : Option FeeBasis)
    {bs : List ℕ}
    → Enabled options op
    → length bs ≤ 4096
    → operation_call genesis sequence op basis ≡ ok bs
    → ReadAs options (record { genesis = genesis; sequence = sequence; op = op }) bs
unfolding operation_call
operation_call-ReadAs options genesis sequence (deploy_progressive p) basis on short h =
    let quote = >>=-eq-ok (progressive_mint_quote p.cap 0 v1) _ h in
    fee_call-ReadAs options genesis sequence (deploy_progressive p) basis on short quote.2
operation_call-ReadAs options genesis sequence (deploy_progressive_v2 p) basis on short h =
    let quote = >>=-eq-ok (progressive_mint_quote p.cap 0 v2) _ h in
    fee_call-ReadAs options genesis sequence (deploy_progressive_v2 p) basis on short quote.2
operation_call-ReadAs options genesis sequence (offer p) basis on short h = cc
operation_call-ReadAs options genesis sequence (inscribe t c) basis on short h =
    fee_call-ReadAs options genesis sequence (inscribe t c) basis on short h
operation_call-ReadAs options genesis sequence (deploy p) basis on short h =
    fee_call-ReadAs options genesis sequence (deploy p) basis on short h
operation_call-ReadAs options genesis sequence (mint asset n) basis on short h =
    fee_call-ReadAs options genesis sequence (mint asset n) basis on short h
operation_call-ReadAs options genesis sequence (transfer asset n to) basis on short h =
    remark_call-ReadAs options genesis sequence (transfer asset n to) on short h
operation_call-ReadAs options genesis sequence (fee_rate e v) basis on short h = cc
operation_call-ReadAs options genesis sequence (fee_admin p) basis on short h = cc

-- What a wallet signs for an operation is what the reducer reads: a call of at most 4096 bytes that is
-- built for an operation is parsed, declares a payload, and that payload is decoded, by a reader that
-- has the operation's tag enabled, to the same operation with the same network and sequence.
pub build_call-ReadAs :
    (options : DecodeOptions) (genesis owner sequence : ℕ) (op : Operation) (ticket : Option Ticket)
    (lot : Option ProgressiveLot) (basis : Option FeeBasis) {bs : List ℕ}
    → Enabled options op
    → length bs ≤ 4096
    → build_call genesis owner sequence (user_operation op) ticket lot basis ≡ ok bs
    → ReadAs options (record { genesis = genesis; sequence = sequence; op = op }) bs
unfolding build_call command_call
build_call-ReadAs options genesis owner sequence op ticket lot basis on short h =
    let account = >>=-eq-ok (id_bytes owner 32) _ h in
    let one = require_that-eq-ok (not (owner == zero_id)) zero_account _ account.2 in
    let two =
      require_that-eq-ok (is_wallet_command (user_operation op)) governance_is_no_command _ one.1 in
    let three = >>=-eq-ok (require_signable genesis (user_operation op)) _ two.1 in
    operation_call-ReadAs options genesis sequence op basis on short three.2
