-- ===== src/Wire/PayloadTrip.antt =====
-- Payloads written and read back: `encode` and `decode` of packages/native/src/codec.ts.
use mathlib.Core.List.{append-nil}
use qlyphs_wallet.Prelude.{
  ℕ, ◌≤◌, ◌≡◌, refl, sym, ap, subst, ◌∙◌, arith, List, [], ◌∷◌, ◌++◌, length, leb, ◌==◌, ok,
  same_text, same_text_refl, same_text-eq, require_that-eq-ok, >>=-eq-ok, ok-inj, leb→le,
  length-append,
}
use qlyphs_wallet.Refusal.{
  invalid_content_type, empty_content, payload_too_large, unknown_protocol, non_canonical_operation,
}
use qlyphs_wallet.Operations.{
  cancel, freeze, set_operator, set_guardian, set_sentinel, Operation, deploy, mint, transfer,
  offer, inscribe, deploy_progressive, deploy_progressive_v2, fee_rate, fee_admin, Envelope,
}
use qlyphs_wallet.Wire.Bytes.{uint, vec, id_bytes, compact}
use qlyphs_wallet.Wire.Reading.{read_int, read_int-uint, read_end}
use qlyphs_wallet.Wire.Fields.{read_id, read_id-id_bytes, max_payload}
use qlyphs_wallet.Wire.Payload.{is_content_type, operation_bytes, encode, protocol_header}
use qlyphs_wallet.Wire.Decoding.{DecodeOptions, read_operation, decode}
use qlyphs_wallet.Wire.Trip.{Enabled, Trip, only_byte}
use qlyphs_wallet.Wire.DeployTrip.{
  deploy-Trip, deploy_progressive-Trip, deploy_progressive_v2-Trip, inscribe-Trip,
}
use qlyphs_wallet.Wire.FeeTrip.{fee_rate-Trip, role-Trip, guardian-Trip, sentinel-Trip}
use qlyphs_wallet.Wire.AssetTrip.{mint-Trip, transfer-Trip, offer-Trip}

-- The content of an inscription is no longer than its operation's bytes.
content_short :
    (t c : List ℕ) {bs : List ℕ}
    → length bs ≤ 1024
    → operation_bytes (inscribe t c) ≡ ok bs
    → length c ≤ 1024
unfolding operation_bytes vec
content_short t c {bs} l h =
    let one = require_that-eq-ok (is_content_type t) invalid_content_type _ h in
    let two = require_that-eq-ok (leb 1 (length c)) empty_content _ one.1 in
    let kind = >>=-eq-ok (vec t) _ two.1 in
    let body = >>=-eq-ok (vec c) _ kind.2 in
    let prefix = >>=-eq-ok (compact (length c)) _ body.1 in
    omega (
      arith,
      l,
      ap length (ok-inj body.2),
      length-append kind.0 body.0,
      ap length (ok-inj prefix.2),
      length-append prefix.0 c,
    )

suffix_length : (a b c d : List ℕ) → length (a ++ (b ++ (c ++ d))) ≤ 1024 → length d ≤ 1024
suffix_length a b c d h =
    omega (arith, length-append a (b ++ (c ++ d)), length-append b (c ++ d), length-append c d)

first_byte : (b : ℕ) (bs : List ℕ) → read_int 1 (b ∷ bs) ≡ ok (record { value = b; rest = bs })
unfolding read_int
first_byte b bs = rw (only_byte b) refl

operation-Trip :
    (options : DecodeOptions) (op : Operation) (rest : List ℕ) {bs : List ℕ}
    → Enabled options op
    → length bs ≤ 1024
    → operation_bytes op ≡ ok bs
    → Trip options op rest bs
unfolding operation_bytes read_operation
operation-Trip options (deploy p) rest on l h = deploy-Trip options p rest h
operation-Trip options (deploy_progressive p) rest on l h =
    deploy_progressive-Trip options p rest on h
operation-Trip options (deploy_progressive_v2 p) rest on l h =
    deploy_progressive_v2-Trip options p rest on h
operation-Trip options (inscribe t c) rest on l h =
    inscribe-Trip options t c rest (content_short t c l h) h
operation-Trip options (fee_rate e r) rest on l h = fee_rate-Trip options e r rest on h
operation-Trip options (fee_admin cancel) rest on l h = (14, 0 ∷ [], sym (ok-inj h), rw on refl)
operation-Trip options (fee_admin freeze) rest on l h = (14, 1 ∷ [], sym (ok-inj h), rw on refl)
operation-Trip options (fee_admin (set_operator a e)) rest on l h = role-Trip options a e rest on h
operation-Trip options (fee_admin (set_guardian a e)) rest on l h =
    guardian-Trip options a e rest on h
operation-Trip options (fee_admin (set_sentinel a)) rest on l h = sentinel-Trip options a rest on h
operation-Trip options (mint a n) rest on l h = mint-Trip options a n rest h
operation-Trip options (transfer a n t) rest on l h = transfer-Trip options a n t rest h
operation-Trip options (offer p) rest on l h = offer-Trip options p rest h

-- Every operation that `encode` accepts is read back from its payload by a reader that has its tag
-- enabled: the network, the sequence and the operation are the same.
pub decode-encode :
    (options : DecodeOptions) (e : Envelope) {payload : List ℕ}
    → Enabled options e.op
    → encode e ≡ ok payload
    → decode options payload ≡ ok e
unfolding decode encode
decode-encode options e {payload} on h =
    let header = >>=-eq-ok (id_bytes protocol_header 5) _ h in
    let genesis = >>=-eq-ok (id_bytes e.genesis 32) _ header.2 in
    let sequence = >>=-eq-ok (uint e.sequence 8) _ genesis.2 in
    let op = >>=-eq-ok (operation_bytes e.op) _ sequence.2 in
    let all = header.0 ++ (genesis.0 ++ (sequence.0 ++ op.0)) in
    let sized = require_that-eq-ok (leb (length all) max_payload) payload_too_large _ op.2 in
    let trip =
      operation-Trip options e.op [] on
        (suffix_length header.0 genesis.0 sequence.0 op.0 (leb→le (length all) 1024 sized.0))
        op.1 in
    let written : encode e ≡ ok all = h ∙ sym sized.1 in
    subst (λ bs. decode options bs ≡ ok e) (ok-inj sized.1)
      (rw
        (
          sized.0,
          read_id-id_bytes protocol_header 5 (genesis.0 ++ (sequence.0 ++ op.0)) header.1,
          read_id-id_bytes e.genesis 32 (sequence.0 ++ op.0) genesis.1,
          read_int-uint e.sequence 8 op.0 sequence.1,
          ap (read_int 1) (trip.2 ∙ ap (λ xs. trip.0 ∷ xs) (sym (append-nil trip.1))),
          first_byte trip.0 (trip.1 ++ []),
          trip.3,
          written,
          same_text_refl all,
        )
        refl)

pub decode-written :
    (options : DecodeOptions) (payload : List ℕ) {e : Envelope}
    → decode options payload ≡ ok e
    → encode e ≡ ok payload
unfolding decode
decode-written options payload {e} h =
    let sized = require_that-eq-ok (leb (length payload) max_payload) payload_too_large _ h in
    let header = >>=-eq-ok (read_id 5 payload) _ sized.1 in
    let known =
      require_that-eq-ok (header.0.value == protocol_header) unknown_protocol _ header.2 in
    let genesis = >>=-eq-ok (read_id 32 header.0.rest) _ known.1 in
    let sequence = >>=-eq-ok (read_int 8 genesis.0.rest) _ genesis.2 in
    let tag = >>=-eq-ok (read_int 1 sequence.0.rest) _ sequence.2 in
    let op = >>=-eq-ok (read_operation options tag.0.value tag.0.rest) _ tag.2 in
    let ended = >>=-eq-ok (read_end op.0.rest) _ op.2 in
    let read : Envelope = record {
      genesis = genesis.0.value;
      sequence = sequence.0.value;
      op = op.0.value;
    } in
    let written = >>=-eq-ok (encode read) _ ended.2 in
    let same =
      require_that-eq-ok (same_text written.0 payload) non_canonical_operation _ written.2 in
    subst (λ x. encode x ≡ ok payload) (ok-inj same.1)
      (written.1 ∙ ap ok (same_text-eq written.0 payload same.0))
