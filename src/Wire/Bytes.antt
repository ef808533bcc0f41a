-- ===== src/Wire/Bytes.antt =====
-- SCALE integers and vectors of packages/native/src/codec.ts. A byte is a number, a byte array the list
-- of its bytes.
use qlyphs_wallet.Prelude.{
  ℕ, zero, suc, ◌+◌, ◌-◌, ◌*◌, ◌/◌, ◌%◌, ◌^◌, List, [], ◌∷◌, ◌++◌, ltb, leb, if◌then◌else◌, Result,
  ok, require_that, ◌>>=◌, ◌>>◌, length, reverse,
}
use qlyphs_wallet.Refusal.{Refusal, integer_out_of_range, wrong_byte_length, compact_out_of_range}
use qlyphs_wallet.Operations.{HexId, max_u128}

-- The `n` low bytes of a number, the lowest first.
unfoldable pub low_bytes : ℕ → ℕ → List ℕ
low_bytes v zero = []
low_bytes v (suc n) = v % 256 ∷ low_bytes (v / 256) n

-- The number that bytes spell, the highest first: the model's form of a hex string.
unfoldable pub spelled : ℕ → List ℕ → ℕ
spelled acc [] = acc
spelled acc (b ∷ bs) = spelled (acc * 256 + b) bs

unfoldable pub uint : ℕ → ℕ → Result Refusal (List ℕ)
unfolding low_bytes
uint v n = require_that (ltb v (2 ^ (8 * n))) integer_out_of_range >> ok (low_bytes v n)

-- `while (v >= 1n << 8n * n) n++`: at most as many rounds as the fuel, and a number below 2 ^ 128 needs
-- at most twelve of them from four bytes on.
unfoldable pub width_from : ℕ → ℕ → ℕ → ℕ
width_from zero v n = n
width_from (suc fuel) v n =
    let wider = width_from fuel v (n + 1) in if leb (2 ^ (8 * n)) v then wider else n

unfoldable pub compact : ℕ → Result Refusal (List ℕ)
unfolding uint width_from
compact v =
    require_that (leb v max_u128) compact_out_of_range
    >> (if ltb v 64
        then uint (v * 4) 1
        else if ltb v 16384
        then uint (v * 4 + 1) 2
        else if ltb v 1_073_741_824
        then uint (v * 4 + 2) 4
        else (let n = width_from 12 v 4 in uint v n >>= λ bs. ok (((n - 4) * 4 + 3) ∷ bs)))

unfoldable pub vec : List ℕ → Result Refusal (List ℕ)
unfolding compact
vec bs = compact (length bs) >>= λ prefix. ok (prefix ++ bs)

-- `fromHex` of an id, which must have `n` bytes.
unfoldable pub id_bytes : HexId → ℕ → Result Refusal (List ℕ)
unfolding low_bytes
id_bytes x n = require_that (ltb x (2 ^ (8 * n))) wrong_byte_length >> ok (reverse (low_bytes x n))

-- `assetId`: the bytes of the creator and of the sequence, as one id of forty bytes.
unfoldable pub asset_id : HexId → ℕ → Result Refusal HexId
unfolding uint spelled
asset_id creator sequence = uint sequence 8 >>= λ bs. ok (spelled creator bs)
