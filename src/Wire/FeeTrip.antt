-- ===== src/Wire/FeeTrip.antt =====
-- Fee governance operations of packages/native/src/codec.ts, written and read back.
use mathlib.Core.List.{append_assoc}
use qlyphs_wallet.Prelude.{ℕ, ◌≡◌, refl, sym, true, List, ◌∷◌, ◌++◌, ok, >>=-eq-ok, ok-inj}
use qlyphs_wallet.Operations.{set_operator, set_guardian, set_sentinel, fee_rate, fee_admin}
use qlyphs_wallet.Wire.Bytes.{uint, id_bytes}
use qlyphs_wallet.Wire.Reading.{read_int-uint}
use qlyphs_wallet.Wire.Fields.{read_id-id_bytes}
use qlyphs_wallet.Wire.Payload.{effective_bytes, operation_bytes}
use qlyphs_wallet.Wire.Decoding.{DecodeOptions, read_operation}
use qlyphs_wallet.Wire.Trip.{Trip, effective-uint}

pub fee_rate-Trip :
    (options : DecodeOptions) (effective rate : ℕ) (rest : List ℕ) {bs : List ℕ}
    → options.fee_schedule ≡ true
    → operation_bytes (fee_rate effective rate) ≡ ok bs
    → Trip options (fee_rate effective rate) rest bs
unfolding operation_bytes read_operation
fee_rate-Trip options effective rate rest on h =
    let height = >>=-eq-ok (effective_bytes effective) _ h in
    let body = >>=-eq-ok (uint rate 8) _ height.2 in
    (
      13,
      height.0 ++ body.0,
      sym (ok-inj body.2),
      rw
          (
            on,
            append_assoc height.0 body.0 rest,
            read_int-uint effective 4 (body.0 ++ rest) (effective-uint effective height.1),
            read_int-uint rate 8 rest body.1,
          )
          refl,
    )

pub role-Trip :
    (options : DecodeOptions) (account effective : ℕ) (rest : List ℕ) {bs : List ℕ}
    → options.fee_schedule ≡ true
    → operation_bytes (fee_admin (set_operator account effective)) ≡ ok bs
    → Trip options (fee_admin (set_operator account effective)) rest bs
unfolding operation_bytes read_operation
role-Trip options account effective rest on h =
    let who = >>=-eq-ok (id_bytes account 32) _ h in
    let height = >>=-eq-ok (effective_bytes effective) _ who.2 in
    (
      14,
      2 ∷ (who.0 ++ height.0),
      sym (ok-inj height.2),
      rw
          (
            on,
            append_assoc who.0 height.0 rest,
            read_id-id_bytes account 32 (height.0 ++ rest) who.1,
            read_int-uint effective 4 rest (effective-uint effective height.1),
          )
          refl,
    )

pub guardian-Trip :
    (options : DecodeOptions) (account effective : ℕ) (rest : List ℕ) {bs : List ℕ}
    → options.fee_schedule ≡ true
    → operation_bytes (fee_admin (set_guardian account effective)) ≡ ok bs
    → Trip options (fee_admin (set_guardian account effective)) rest bs
unfolding operation_bytes read_operation
guardian-Trip options account effective rest on h =
    let who = >>=-eq-ok (id_bytes account 32) _ h in
    let height = >>=-eq-ok (effective_bytes effective) _ who.2 in
    (
      14,
      3 ∷ (who.0 ++ height.0),
      sym (ok-inj height.2),
      rw
          (
            on,
            append_assoc who.0 height.0 rest,
            read_id-id_bytes account 32 (height.0 ++ rest) who.1,
            read_int-uint effective 4 rest (effective-uint effective height.1),
          )
          refl,
    )

pub sentinel-Trip :
    (options : DecodeOptions) (account : ℕ) (rest : List ℕ) {bs : List ℕ}
    → options.fee_schedule ≡ true
    → operation_bytes (fee_admin (set_sentinel account)) ≡ ok bs
    → Trip options (fee_admin (set_sentinel account)) rest bs
unfolding operation_bytes read_operation
sentinel-Trip options account rest on h =
    let who = >>=-eq-ok (id_bytes account 32) _ h in
    (14, 4 ∷ who.0, sym (ok-inj who.2), rw (on, read_id-id_bytes account 32 rest who.1) refl)
