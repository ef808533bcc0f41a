-- ===== src/Wire/DeployTrip.antt =====
-- Deploys and inscriptions of packages/native/src/codec.ts, written and read back.
use mathlib.Core.List.{append_assoc}
use qlyphs_wallet.Prelude.{
  ℕ, ◌≤◌, ◌≡◌, refl, sym, true, List, [], ◌∷◌, ◌++◌, length, leb, ◌==◌, if◌then◌else◌, ok,
  require_that-eq-ok, >>=-eq-ok, ok-inj,
}
use qlyphs_wallet.Refusal.{
  invalid_decimals, mint_limit_exceeds_cap, invalid_content_type, empty_content,
}
use qlyphs_wallet.Operations.{
  Policy, open_mint, issuer, Deploy, ProgressiveDeploy, deploy, inscribe, deploy_progressive,
  deploy_progressive_v2,
}
use qlyphs_wallet.Wire.Bytes.{uint, vec}
use qlyphs_wallet.Wire.Reading.{read_int-uint}
use qlyphs_wallet.Wire.Fields.{read_vector-vec}
use qlyphs_wallet.Wire.Payload.{
  is_content_type, positive, symbol_bytes, policy_byte, progressive_bytes, operation_bytes,
}
use qlyphs_wallet.Wire.Decoding.{DecodeOptions, read_operation}
use qlyphs_wallet.Wire.TextTrip.{symbol_lem, read_text_lem, content_type_text}
use qlyphs_wallet.Wire.Trip.{Trip, only_byte, positive-uint}

policy_back : (p : Policy) → (if policy_byte p == 0 then open_mint else issuer) ≡ p
policy_back open_mint = refl
policy_back issuer = refl

policy_range : (p : Policy) → leb (policy_byte p) 1 ≡ true
policy_range open_mint = refl
policy_range issuer = refl

pub deploy-Trip :
    (options : DecodeOptions) (p : Deploy) (rest : List ℕ) {bs : List ℕ}
    → operation_bytes (deploy p) ≡ ok bs
    → Trip options (deploy p) rest bs
unfolding operation_bytes read_operation
deploy-Trip options p rest h =
    let one = require_that-eq-ok (leb p.decimals 18) invalid_decimals _ h in
    let two = require_that-eq-ok (leb p.limit p.cap) mint_limit_exceeds_cap _ one.1 in
    let symbol = >>=-eq-ok (symbol_bytes p.symbol) _ two.1 in
    let supply = >>=-eq-ok (positive p.cap) _ symbol.2 in
    let limit = >>=-eq-ok (positive p.limit) _ supply.2 in
    (
      0,
      symbol.0 ++ (p.decimals ∷ (supply.0 ++ (limit.0 ++ (policy_byte p.policy ∷ [])))),
      sym (ok-inj limit.2),
      rw
          (
            append_assoc symbol.0
                (p.decimals ∷ (supply.0 ++ (limit.0 ++ (policy_byte p.policy ∷ [])))) rest,
            append_assoc supply.0 (limit.0 ++ (policy_byte p.policy ∷ [])) rest,
            append_assoc limit.0 (policy_byte p.policy ∷ []) rest,
            symbol_lem p.symbol
                (p.decimals ∷ (supply.0 ++ (limit.0 ++ (policy_byte p.policy ∷ rest)))) symbol.1,
            only_byte p.decimals,
            read_int-uint p.cap 16 (limit.0 ++ (policy_byte p.policy ∷ rest))
                (positive-uint p.cap supply.1),
            read_int-uint p.limit 16 (policy_byte p.policy ∷ rest) (positive-uint p.limit limit.1),
            only_byte (policy_byte p.policy),
            policy_range p.policy,
            policy_back p.policy,
          )
          refl,
    )

pub progressive_trip :
    (tag : ℕ) (p : ProgressiveDeploy) {bs : List ℕ}
    → progressive_bytes tag p ≡ ok bs
    → (symbol supply : List ℕ) × (symbol_bytes p.symbol ≡ ok symbol)
      × (uint p.cap 16 ≡ ok supply)
      × (bs ≡ tag ∷ (symbol ++ (p.decimals ∷ supply)))
progressive_trip tag p h =
    let one = require_that-eq-ok (leb p.decimals 18) invalid_decimals _ h in
    let symbol = >>=-eq-ok (symbol_bytes p.symbol) _ one.1 in
    let supply = >>=-eq-ok (positive p.cap) _ symbol.2 in
    (symbol.0, supply.0, symbol.1, positive-uint p.cap supply.1, sym (ok-inj supply.2))

pub deploy_progressive-Trip :
    (options : DecodeOptions) (p : ProgressiveDeploy) (rest : List ℕ) {bs : List ℕ}
    → options.progressive ≡ true
    → operation_bytes (deploy_progressive p) ≡ ok bs
    → Trip options (deploy_progressive p) rest bs
unfolding operation_bytes read_operation
deploy_progressive-Trip options p rest on h =
    let t = progressive_trip 11 p h in
    (
      11,
      t.0 ++ (p.decimals ∷ t.1),
      t.4,
      rw
          (
            on,
            append_assoc t.0 (p.decimals ∷ t.1) rest,
            symbol_lem p.symbol (p.decimals ∷ (t.1 ++ rest)) t.2,
            only_byte p.decimals,
            read_int-uint p.cap 16 rest t.3,
          )
          refl,
    )

pub deploy_progressive_v2-Trip :
    (options : DecodeOptions) (p : ProgressiveDeploy) (rest : List ℕ) {bs : List ℕ}
    → options.progressive_v2 ≡ true
    → operation_bytes (deploy_progressive_v2 p) ≡ ok bs
    → Trip options (deploy_progressive_v2 p) rest bs
unfolding operation_bytes read_operation
deploy_progressive_v2-Trip options p rest on h =
    let t = progressive_trip 12 p h in
    (
      12,
      t.0 ++ (p.decimals ∷ t.1),
      t.4,
      rw
          (
            on,
            append_assoc t.0 (p.decimals ∷ t.1) rest,
            symbol_lem p.symbol (p.decimals ∷ (t.1 ++ rest)) t.2,
            only_byte p.decimals,
            read_int-uint p.cap 16 rest t.3,
          )
          refl,
    )

pub inscribe-Trip :
    (options : DecodeOptions) (t c rest : List ℕ) {bs : List ℕ}
    → length c ≤ 1024
    → operation_bytes (inscribe t c) ≡ ok bs
    → Trip options (inscribe t c) rest bs
unfolding operation_bytes read_operation
inscribe-Trip options t c rest short h =
    let one = require_that-eq-ok (is_content_type t) invalid_content_type _ h in
    let two = require_that-eq-ok (leb 1 (length c)) empty_content _ one.1 in
    let kind = >>=-eq-ok (vec t) _ two.1 in
    let body = >>=-eq-ok (vec c) _ kind.2 in
    let named = content_type_text t one.0 in
    (
      9,
      kind.0 ++ body.0,
      sym (ok-inj body.2),
      rw
          (
            append_assoc kind.0 body.0 rest,
            read_text_lem 64 t (body.0 ++ rest) named.0 named.1 kind.1,
            one.0,
            read_vector-vec 1024 c rest short body.1,
            two.0,
          )
          refl,
    )
