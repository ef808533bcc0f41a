-- ===== src/Wire/Exact.antt =====
-- `decode` of packages/native/src/codec.ts reads what `encode` writes and nothing else.
use qlyphs_wallet.Prelude.{
  ℕ, Bool, true, false, ◌&&◌, not, List, length, leb, ◌==◌, same_text, if◌then◌else◌, ◌≡◌, refl,
  subst, arith, ◌↔◌, &&-true, Result, ok, ok-inj, >>=-eq-ok, require_that-eq-ok,
}
use qlyphs_wallet.Refusal.{
  Refusal, invalid_policy, invalid_content_type, empty_content, payload_too_large, unknown_protocol,
  non_canonical_operation, reserved_operation, unknown_operation,
}
use qlyphs_wallet.Operations.{Operation, Envelope}
use qlyphs_wallet.Wire.Reading.{Read, read_int, read_end}
use qlyphs_wallet.Wire.Fields.{read_id, read_vector, max_payload}
use qlyphs_wallet.Wire.Payload.{is_content_type, encode, protocol_header}
use qlyphs_wallet.Wire.Decoding.{
  DecodeOptions, read_text, read_deploy, read_inscribe, read_progressive, read_fee_rate, read_role,
  read_sentinel, read_action, read_fee_admin, read_transfer, read_offer, is_reserved,
  read_asset_operation, read_operation, decode,
}
use qlyphs_wallet.Wire.Trip.{Enabled}
use qlyphs_wallet.Wire.PayloadTrip.{decode-encode, decode-written}

-- A read that returns gives an operation whose tag is enabled.
abbrev Within : DecodeOptions → Result Refusal (Read Operation) → Type 0
Within options call = (x : Read Operation) → call ≡ ok x → Enabled options x.value

module _ (options : DecodeOptions) where
  here : (x : Read Operation) → Enabled options x.value → Within options (ok x)
  here x on y h = subst (λ z. Enabled options z.value) (ok-inj h) on

  deploy-Within : (input : List ℕ) → Within options (read_deploy input)
  deploy-Within input x h =
      let symbol = >>=-eq-ok (read_text 12 input) _ h in
      let decimals = >>=-eq-ok (read_int 1 symbol.0.rest) _ symbol.2 in
      let supply = >>=-eq-ok (read_int 16 decimals.0.rest) _ decimals.2 in
      let limit = >>=-eq-ok (read_int 16 supply.0.rest) _ supply.2 in
      let policy = >>=-eq-ok (read_int 1 limit.0.rest) _ limit.2 in
      let known = require_that-eq-ok (leb policy.0.value 1) invalid_policy _ policy.2 in
      here _ (omega arith) x known.1

  inscribe-Within : (input : List ℕ) → Within options (read_inscribe input)
  inscribe-Within input x h =
      let kind = >>=-eq-ok (read_text 64 input) _ h in
      let typed = require_that-eq-ok (is_content_type kind.0.value) invalid_content_type _ kind.2 in
      let content = >>=-eq-ok (read_vector max_payload kind.0.rest) _ typed.1 in
      let some_content =
        require_that-eq-ok (leb 1 (length content.0.value)) empty_content _ content.2 in
      here _ (omega arith) x some_content.1

  progressive-Within :
      (input : List ℕ) → options.progressive ≡ true → Within options (read_progressive false input)
  progressive-Within input on x h =
      let symbol = >>=-eq-ok (read_text 12 input) _ h in
      let decimals = >>=-eq-ok (read_int 1 symbol.0.rest) _ symbol.2 in
      let supply = >>=-eq-ok (read_int 16 decimals.0.rest) _ decimals.2 in here _ on x supply.2

  progressive_v2-Within :
      (input : List ℕ)
      → options.progressive_v2 ≡ true
      → Within options (read_progressive true input)
  progressive_v2-Within input on x h =
      let symbol = >>=-eq-ok (read_text 12 input) _ h in
      let decimals = >>=-eq-ok (read_int 1 symbol.0.rest) _ symbol.2 in
      let supply = >>=-eq-ok (read_int 16 decimals.0.rest) _ decimals.2 in here _ on x supply.2

  fee_rate-Within :
      (input : List ℕ) → options.fee_schedule ≡ true → Within options (read_fee_rate input)
  fee_rate-Within input on x h =
      let effective = >>=-eq-ok (read_int 4 input) _ h in
      let rate = >>=-eq-ok (read_int 8 effective.0.rest) _ effective.2 in here _ on x rate.2

  role-Within :
      (is_operator : Bool) (input : List ℕ)
      → options.fee_schedule ≡ true
      → Within options (read_role is_operator input)
  role-Within is_operator input on x h =
      let account = >>=-eq-ok (read_id 32 input) _ h in
      let effective = >>=-eq-ok (read_int 4 account.0.rest) _ account.2 in here _ on x effective.2

  sentinel-Within :
      (input : List ℕ) → options.fee_schedule ≡ true → Within options (read_sentinel input)
  sentinel-Within input on x h =
      let account = >>=-eq-ok (read_id 32 input) _ h in here _ on x account.2

  choose :
      (b : Bool) {c d : Result Refusal (Read Operation)}
      → (b ≡ true → Within options c)
      → Within options d
      → Within options (if b then c else d)
  choose true on off = on refl
  choose false on off = off

  action-Within :
      (action : ℕ) (input : List ℕ)
      → options.fee_schedule ≡ true
      → Within options (read_action action input)
  action-Within action input on =
      choose (action == 0) (λ e. here _ on)
        (choose (action == 1) (λ e. here _ on)
          (choose (action == 2) (λ e. role-Within true input on)
            (choose (action == 3) (λ e. role-Within false input on)
              (choose (action == 4) (λ e. sentinel-Within input on) (λ x h. cc)))))

  fee_admin-Within :
      (input : List ℕ) → options.fee_schedule ≡ true → Within options (read_fee_admin input)
  fee_admin-Within input on x h =
      let action = >>=-eq-ok (read_int 1 input) _ h in
      action-Within action.0.value action.0.rest on x action.2

  transfer-Within :
      (asset amount : ℕ) (input : List ℕ) → Within options (read_transfer asset amount input)
  transfer-Within asset amount input x h =
      let to = >>=-eq-ok (read_id 32 input) _ h in here _ (omega arith) x to.2

  offer-Within :
      (asset amount : ℕ) (input : List ℕ) → Within options (read_offer asset amount input)
  offer-Within asset amount input x h =
      let buyer = >>=-eq-ok (read_id 32 input) _ h in
      let payout = >>=-eq-ok (read_id 32 buyer.0.rest) _ buyer.2 in
      let price = >>=-eq-ok (read_int 16 payout.0.rest) _ payout.2 in
      let fee = >>=-eq-ok (read_int 16 price.0.rest) _ price.2 in
      let fee_to = >>=-eq-ok (read_id 32 fee.0.rest) _ fee.2 in
      let expiry = >>=-eq-ok (read_int 4 fee_to.0.rest) _ fee_to.2 in
      here _ (omega arith) x expiry.2

  asset_operation-Within :
      (tag : ℕ) (input : List ℕ) → Within options (read_asset_operation tag input)
  asset_operation-Within tag input x h =
      let free = require_that-eq-ok (not (is_reserved tag)) reserved_operation _ h in
      let known = require_that-eq-ok (leb tag 3) unknown_operation _ free.1 in
      let asset = >>=-eq-ok (read_id 40 input) _ known.1 in
      let amount = >>=-eq-ok (read_int 16 asset.0.rest) _ asset.2 in
      choose (tag == 1) (λ e. here _ (omega arith))
        (choose (tag == 2) (λ e. transfer-Within asset.0.value amount.0.value amount.0.rest)
          (offer-Within asset.0.value amount.0.value amount.0.rest))
        x amount.2

  operation-Within : (tag : ℕ) (input : List ℕ) → Within options (read_operation options tag input)
  unfolding read_operation
  operation-Within tag input =
      choose (tag == 0) (λ e. deploy-Within input)
        (choose (tag == 9) (λ e. inscribe-Within input)
          (choose (tag == 11 && options.progressive)
            (λ e. progressive-Within input (&&-true (tag == 11) options.progressive e).1)
            (choose (tag == 12 && options.progressive_v2)
              (λ e. progressive_v2-Within input (&&-true (tag == 12) options.progressive_v2 e).1)
              (choose (tag == 13 && options.fee_schedule)
                (λ e. fee_rate-Within input (&&-true (tag == 13) options.fee_schedule e).1)
                (choose (tag == 14 && options.fee_schedule)
                  (λ e. fee_admin-Within input (&&-true (tag == 14) options.fee_schedule e).1)
                  (asset_operation-Within tag input))))))

decode-Enabled :
    (options : DecodeOptions) (payload : List ℕ) {e : Envelope}
    → decode options payload ≡ ok e
    → Enabled options e.op
unfolding decode
decode-Enabled options payload {e} h =
    let sized = require_that-eq-ok (leb (length payload) max_payload) payload_too_large _ h in
    let header = >>=-eq-ok (read_id 5 payload) _ sized.1 in
    let known =
      require_that-eq-ok (header.0.value == protocol_header) unknown_protocol _ header.2 in
    let genesis = >>=-eq-ok (read_id 32 header.0.rest) _ known.1 in
    let sequence = >>=-eq-ok (read_int 8 genesis.0.rest) _ genesis.2 in
    let tag = >>=-eq-ok (read_int 1 sequence.0.rest) _ sequence.2 in
    let op = >>=-eq-ok (read_operation options tag.0.value tag.0.rest) _ tag.2 in
    let ended = >>=-eq-ok (read_end op.0.rest) _ op.2 in
    let read : Envelope = record {
      genesis = genesis.0.value;
      sequence = sequence.0.value;
      op = op.0.value;
    } in
    let written = >>=-eq-ok (encode read) _ ended.2 in
    let same =
      require_that-eq-ok (same_text written.0 payload) non_canonical_operation _ written.2 in
    subst (λ x. Enabled options x.op) (ok-inj same.1)
      (operation-Within options tag.0.value tag.0.rest op.0 op.1)

-- `decode` reads an envelope from a payload exactly when the tag of its operation is enabled and the
-- payload is what `encode` writes for it. So a reader accepts every payload of an enabled operation,
-- and no other bytes: no second spelling and no operation whose tag it has not enabled.
pub decode_iff :
    (options : DecodeOptions) (payload : List ℕ) (e : Envelope)
    → (decode options payload ≡ ok e) ↔ (Enabled options e.op × (encode e ≡ ok payload))
decode_iff options payload e = (
  λ h. (decode-Enabled options payload h, decode-written options payload h),
  λ h. decode-encode options e h.0 h.1,
)
