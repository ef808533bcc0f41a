-- ===== src/Wire/Reading.antt =====
-- `Reader` of packages/native/src/codec.ts: a reader's state is the bytes that it has not read yet.
use native.Mathlib.Nat.{pow-suc}
use qlyphs_wallet.Prelude.{
  ℕ, zero, suc, ◌+◌, ◌*◌, ◌/◌, ◌^◌, ◌<◌, ◌≡◌, refl, ap, subst, ◌∙◌, arith, List, [], ◌∷◌, ◌++◌, ltb,
  Result, ok, err, ◌>>=◌, length, require_that-eq-ok, ok-inj, ltb→lt,
}
use qlyphs_wallet.Refusal.{Refusal, integer_out_of_range, truncated_input, trailing_bytes}
use qlyphs_wallet.Wire.Bytes.{low_bytes, uint}

pub record Read {ℓ} (V : Type ℓ) : Type ℓ where
  pub value : V
  pub rest : List ℕ

unfoldable pub read_bytes : ℕ → List ℕ → Result Refusal (Read (List ℕ))
read_bytes zero input = ok (record { value = []; rest = input })
read_bytes (suc n) [] = err truncated_input
read_bytes (suc n) (b ∷ input) =
    read_bytes n input >>= λ r. ok (record { value = b ∷ r.value; rest = r.rest })

-- The number of little-endian bytes.
unfoldable pub little_endian : List ℕ → ℕ
little_endian [] = 0
little_endian (b ∷ bs) = b + 256 * little_endian bs

-- `int(n)`
unfoldable pub read_int : ℕ → List ℕ → Result Refusal (Read ℕ)
unfolding read_bytes little_endian
read_int n input =
    read_bytes n input >>= λ r. ok (record { value = little_endian r.value; rest = r.rest })

abbrev pub read_end : List ℕ → Result Refusal (Unit {0})
read_end [] = ok tt
read_end (b ∷ bs) = err trailing_bytes

pub read_bytes_lem :
    (bs rest : List ℕ)
    → read_bytes (length bs) (bs ++ rest) ≡ ok (record { value = bs; rest = rest })
unfolding read_bytes
read_bytes_lem [] rest = refl
read_bytes_lem (b ∷ bs) rest = rw (read_bytes_lem bs rest) refl

pub length-low_bytes : (v n : ℕ) → length (low_bytes v n) ≡ n
unfolding low_bytes
length-low_bytes v zero = refl
length-low_bytes v (suc n) = ap suc (length-low_bytes (v / 256) n)

eight : (n : ℕ) → 8 * suc n ≡ suc (suc (suc (suc (suc (suc (suc (suc (8 * n))))))))
eight n = omega arith

eight_doublings : (m : ℕ) → 2 ^ suc (suc (suc (suc (suc (suc (suc (suc m))))))) ≡ 256 * 2 ^ m
eight_doublings m = omega (
  arith,
  pow-suc 2 m,
  pow-suc 2 (suc m),
  pow-suc 2 (suc (suc m)),
  pow-suc 2 (suc (suc (suc m))),
  pow-suc 2 (suc (suc (suc (suc m)))),
  pow-suc 2 (suc (suc (suc (suc (suc m))))),
  pow-suc 2 (suc (suc (suc (suc (suc (suc m)))))),
  pow-suc 2 (suc (suc (suc (suc (suc (suc (suc m))))))),
)

byte_pow : (n : ℕ) → 2 ^ (8 * suc n) ≡ 256 * 2 ^ (8 * n)
byte_pow n = ap (λ m. 2 ^ m) (eight n) ∙ eight_doublings (8 * n)

pub little_endian-low_bytes : (n v : ℕ) → v < 2 ^ (8 * n) → little_endian (low_bytes v n) ≡ v
unfolding low_bytes little_endian
little_endian-low_bytes zero v h = omega (arith, h)
little_endian-low_bytes (suc n) v h =
    omega (arith, little_endian-low_bytes n (v / 256) (omega (arith, byte_pow n)))

-- Reading an integer of `n` bytes gives back every number that could be written in `n` bytes, and
-- leaves exactly the bytes that follow it.
pub read_int-uint :
    (v n : ℕ) (rest : List ℕ) {bs : List ℕ}
    → uint v n ≡ ok bs
    → read_int n (bs ++ rest) ≡ ok (record { value = v; rest = rest })
unfolding uint read_int
read_int-uint v n rest h =
    let test = require_that-eq-ok (ltb v (2 ^ (8 * n))) integer_out_of_range _ h in
    let back : read_bytes n (low_bytes v n ++ rest)
        ≡ ok (record { value = low_bytes v n; rest = rest }) =
      subst
        (λ k.
          read_bytes k (low_bytes v n ++ rest) ≡ ok (record { value = low_bytes v n; rest = rest }))
        (length-low_bytes v n) (read_bytes_lem (low_bytes v n) rest) in
    subst (λ bs. read_int n (bs ++ rest) ≡ ok (record { value = v; rest = rest })) (ok-inj test.1)
      (rw (back, little_endian-low_bytes n v (ltb→lt v (2 ^ (8 * n)) test.0)) refl)
