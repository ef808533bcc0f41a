-- ===== src/Wire/Trip.antt =====
-- What it means that an operation of packages/native/src/codec.ts is read back from its bytes.
use qlyphs_wallet.Prelude.{
  ℕ, ◌+◌, ◌*◌, ◌≤◌, ◌≡◌, arith, true, List, ◌∷◌, ◌++◌, ltb, leb, ok, require_that-eq-ok,
}
use qlyphs_wallet.Refusal.{amount_must_be_positive, invalid_effective_height}
use qlyphs_wallet.Operations.{
  Operation, deploy_progressive, deploy_progressive_v2, fee_rate, fee_admin, u32_max,
}
use qlyphs_wallet.Wire.Bytes.{uint}
use qlyphs_wallet.Wire.Payload.{positive, effective_bytes}
use qlyphs_wallet.Wire.Decoding.{DecodeOptions, read_operation}

-- The optional tags that an operation needs.
abbrev pub Enabled : DecodeOptions → Operation → Type 0
Enabled options (deploy_progressive p) = options.progressive ≡ true
Enabled options (deploy_progressive_v2 p) = options.progressive_v2 ≡ true
Enabled options (fee_rate effective rate) = options.fee_schedule ≡ true
Enabled options (fee_admin p) = options.fee_schedule ≡ true
Enabled options _ = 0 ≤ 0

-- A read of an operation gives it back: from its tag on, with any bytes after it.
abbrev pub Trip : DecodeOptions → Operation → List ℕ → List ℕ → Type 0
Trip options op rest bs =
    (tag : ℕ) × (tail : List ℕ) × (bs ≡ tag ∷ tail)
    × (read_operation options tag (tail ++ rest) ≡ ok (record { value = op; rest = rest }))

pub only_byte : (b : ℕ) → b + 256 * 0 ≡ b
only_byte b = omega arith

pub positive-uint : (n : ℕ) {bs : List ℕ} → positive n ≡ ok bs → uint n 16 ≡ ok bs
positive-uint n h = (require_that-eq-ok (ltb 0 n) amount_must_be_positive _ h).1

pub effective-uint : (n : ℕ) {bs : List ℕ} → effective_bytes n ≡ ok bs → uint n 4 ≡ ok bs
effective-uint n h = (require_that-eq-ok (leb n u32_max) invalid_effective_height _ h).1
