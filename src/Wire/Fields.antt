-- ===== src/Wire/Fields.antt =====
-- Ids and vectors read by `Reader` of packages/native/src/codec.ts.
use mathlib.Core.List.{append_assoc, reverse_aux}
use qlyphs_wallet.Prelude.{
  ℕ, ◌+◌, ◌*◌, ◌^◌, ◌<◌, ◌≤◌, ◌≡◌, refl, ap, subst, ◌∙◌, arith, List, [], ◌∷◌, ◌++◌, ltb, leb,
  Result, ok, require_that, ◌>>=◌, ◌>>◌, length, reverse, require_that-eq-ok, >>=-eq-ok, ok-inj,
  ltb→lt, le→leb,
}
use qlyphs_wallet.Refusal.{Refusal, wrong_byte_length, vector_too_large}
use qlyphs_wallet.Operations.{HexId}
use qlyphs_wallet.Wire.Bytes.{low_bytes, spelled, id_bytes, vec, compact}
use qlyphs_wallet.Wire.Reading.{
  Read, read_bytes, little_endian, little_endian-low_bytes, length-low_bytes, read_bytes_lem,
}
use qlyphs_wallet.Wire.Compact.{read_compact, read_compact-compact}

-- `MAX_PAYLOAD`
abbrev pub max_payload : ℕ
max_payload = 1024

-- `id(n)`
unfoldable pub read_id : ℕ → List ℕ → Result Refusal (Read HexId)
unfolding spelled
read_id n input =
    read_bytes n input >>= λ r. ok (record { value = spelled 0 r.value; rest = r.rest })

-- `vector(max)`
unfoldable pub read_vector : ℕ → List ℕ → Result Refusal (Read (List ℕ))
read_vector most input = read_compact input >>= λ n.
    require_that (leb n.value most) vector_too_large >> read_bytes n.value n.rest

spelled-reverse_aux : (bs t : List ℕ) → spelled 0 (reverse_aux bs t) ≡ spelled (little_endian bs) t
unfolding spelled little_endian
spelled-reverse_aux [] t = refl
spelled-reverse_aux (b ∷ bs) t =
    spelled-reverse_aux bs (b ∷ t) ∙ ap (λ n. spelled n t) (omega arith)

length-reverse_aux : (bs t : List ℕ) → length (reverse_aux bs t) ≡ length bs + length t
length-reverse_aux [] t = omega arith
length-reverse_aux (b ∷ bs) t = omega (arith, length-reverse_aux bs (b ∷ t))

id_length : (x n : ℕ) → length (reverse (low_bytes x n)) ≡ n
id_length x n = omega (arith, length-reverse_aux (low_bytes x n) [], length-low_bytes x n)

id_value : (x n : ℕ) → x < 2 ^ (8 * n) → spelled 0 (reverse (low_bytes x n)) ≡ x
unfolding spelled
id_value x n h = spelled-reverse_aux (low_bytes x n) [] ∙ little_endian-low_bytes n x h

pub read_id-id_bytes :
    (x n : ℕ) (rest : List ℕ) {bs : List ℕ}
    → id_bytes x n ≡ ok bs
    → read_id n (bs ++ rest) ≡ ok (record { value = x; rest = rest })
unfolding read_id id_bytes
read_id-id_bytes x n rest h =
    let test = require_that-eq-ok (ltb x (2 ^ (8 * n))) wrong_byte_length _ h in
    let bytes = reverse (low_bytes x n) in
    let back : read_bytes n (bytes ++ rest) ≡ ok (record { value = bytes; rest = rest }) =
      subst (λ k. read_bytes k (bytes ++ rest) ≡ ok (record { value = bytes; rest = rest }))
        (id_length x n) (read_bytes_lem bytes rest) in
    subst (λ bs. read_id n (bs ++ rest) ≡ ok (record { value = x; rest = rest })) (ok-inj test.1)
      (rw (back, id_value x n (ltb→lt x (2 ^ (8 * n)) test.0)) refl)

pub read_vector-vec :
    (most : ℕ) (xs rest : List ℕ) {bs : List ℕ}
    → length xs ≤ most
    → vec xs ≡ ok bs
    → read_vector most (bs ++ rest) ≡ ok (record { value = xs; rest = rest })
unfolding read_vector vec
read_vector-vec most xs rest l h =
    let prefix = >>=-eq-ok (compact (length xs)) _ h in
    subst (λ bs. read_vector most (bs ++ rest) ≡ ok (record { value = xs; rest = rest }))
      (ok-inj prefix.2)
      (rw
        (
          append_assoc prefix.0 xs rest,
          read_compact-compact (length xs) (xs ++ rest) prefix.1,
          le→leb (length xs) most l,
        )
        (read_bytes_lem xs rest))
