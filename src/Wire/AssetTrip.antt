-- ===== src/Wire/AssetTrip.antt =====
-- Mints, transfers and offers of packages/native/src/codec.ts, written and read back.
use mathlib.Core.List.{append_assoc}
use qlyphs_wallet.Prelude.{
  ℕ, ◌+◌, ◌≡◌, refl, sym, ◌||◌, not, List, ◌++◌, leb, ◌==◌, ok, require_that-eq-ok, >>=-eq-ok,
  ok-inj,
}
use qlyphs_wallet.Refusal.{payment_overflow, zero_fee_needs_zero_fee_to, invalid_expiry}
use qlyphs_wallet.Operations.{Offer, mint, transfer, offer, zero_id, u32_max, max_u128}
use qlyphs_wallet.Wire.Bytes.{uint, id_bytes}
use qlyphs_wallet.Wire.Reading.{read_int-uint}
use qlyphs_wallet.Wire.Fields.{read_id-id_bytes}
use qlyphs_wallet.Wire.Payload.{positive, operation_bytes}
use qlyphs_wallet.Wire.Decoding.{DecodeOptions, read_operation}
use qlyphs_wallet.Wire.Trip.{Trip, positive-uint}

pub mint-Trip :
    (options : DecodeOptions) (asset amount : ℕ) (rest : List ℕ) {bs : List ℕ}
    → operation_bytes (mint asset amount) ≡ ok bs
    → Trip options (mint asset amount) rest bs
unfolding operation_bytes read_operation
mint-Trip options asset amount rest h =
    let id = >>=-eq-ok (id_bytes asset 40) _ h in
    let n = >>=-eq-ok (positive amount) _ id.2 in
    (
      1,
      id.0 ++ n.0,
      sym (ok-inj n.2),
      rw
          (
            append_assoc id.0 n.0 rest,
            read_id-id_bytes asset 40 (n.0 ++ rest) id.1,
            read_int-uint amount 16 rest (positive-uint amount n.1),
          )
          refl,
    )

pub transfer-Trip :
    (options : DecodeOptions) (asset amount to : ℕ) (rest : List ℕ) {bs : List ℕ}
    → operation_bytes (transfer asset amount to) ≡ ok bs
    → Trip options (transfer asset amount to) rest bs
unfolding operation_bytes read_operation
transfer-Trip options asset amount to rest h =
    let id = >>=-eq-ok (id_bytes asset 40) _ h in
    let n = >>=-eq-ok (positive amount) _ id.2 in
    let who = >>=-eq-ok (id_bytes to 32) _ n.2 in
    (
      2,
      id.0 ++ (n.0 ++ who.0),
      sym (ok-inj who.2),
      rw
          (
            append_assoc id.0 (n.0 ++ who.0) rest,
            append_assoc n.0 who.0 rest,
            read_id-id_bytes asset 40 (n.0 ++ (who.0 ++ rest)) id.1,
            read_int-uint amount 16 (who.0 ++ rest) (positive-uint amount n.1),
            read_id-id_bytes to 32 rest who.1,
          )
          refl,
    )

pub offer-Trip :
    (options : DecodeOptions) (p : Offer) (rest : List ℕ) {bs : List ℕ}
    → operation_bytes (offer p) ≡ ok bs
    → Trip options (offer p) rest bs
unfolding operation_bytes read_operation
offer-Trip options p rest h =
    let id = >>=-eq-ok (id_bytes p.asset 40) _ h in
    let n = >>=-eq-ok (positive p.amount) _ id.2 in
    let dated = require_that-eq-ok (leb p.expiry u32_max) invalid_expiry _ n.2 in
    let paid = require_that-eq-ok (leb (p.price + p.fee) max_u128) payment_overflow _ dated.1 in
    let zeros =
      require_that-eq-ok (not (p.fee == 0) || p.fee_to == zero_id) zero_fee_needs_zero_fee_to _
        paid.1 in
    let buyer = >>=-eq-ok (id_bytes p.buyer 32) _ zeros.1 in
    let payout = >>=-eq-ok (id_bytes p.payout 32) _ buyer.2 in
    let price = >>=-eq-ok (positive p.price) _ payout.2 in
    let fee = >>=-eq-ok (uint p.fee 16) _ price.2 in
    let fee_to = >>=-eq-ok (id_bytes p.fee_to 32) _ fee.2 in
    let expiry = >>=-eq-ok (uint p.expiry 4) _ fee_to.2 in
    (
      3,
      id.0 ++ (n.0 ++ (buyer.0 ++ (payout.0 ++ (price.0 ++ (fee.0 ++ (fee_to.0 ++ expiry.0)))))),
      sym (ok-inj expiry.2),
      rw
          (
            append_assoc id.0
                (n.0 ++ (buyer.0 ++ (payout.0 ++ (price.0 ++ (fee.0 ++ (fee_to.0 ++ expiry.0))))))
                rest,
            append_assoc n.0
                (buyer.0 ++ (payout.0 ++ (price.0 ++ (fee.0 ++ (fee_to.0 ++ expiry.0))))) rest,
            append_assoc buyer.0 (payout.0 ++ (price.0 ++ (fee.0 ++ (fee_to.0 ++ expiry.0)))) rest,
            append_assoc payout.0 (price.0 ++ (fee.0 ++ (fee_to.0 ++ expiry.0))) rest,
            append_assoc price.0 (fee.0 ++ (fee_to.0 ++ expiry.0)) rest,
            append_assoc fee.0 (fee_to.0 ++ expiry.0) rest,
            append_assoc fee_to.0 expiry.0 rest,
            read_id-id_bytes p.asset 40 _ id.1,
            read_int-uint p.amount 16 _ (positive-uint p.amount n.1),
            read_id-id_bytes p.buyer 32 _ buyer.1,
            read_id-id_bytes p.payout 32 _ payout.1,
            read_int-uint p.price 16 _ (positive-uint p.price price.1),
            read_int-uint p.fee 16 _ fee.1,
            read_id-id_bytes p.fee_to 32 _ fee_to.1,
            read_int-uint p.expiry 4 rest expiry.1,
          )
          refl,
    )
