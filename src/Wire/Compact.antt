-- ===== src/Wire/Compact.antt =====
-- Compact integers of packages/native/src/codec.ts: `compact` and `Reader.compact`.
use qlyphs_wallet.Prelude.{
  ℕ, zero, suc, ◌+◌, ◌-◌, ◌*◌, ◌/◌, ◌%◌, ◌<◌, ◌≤◌, ◌≡◌, refl, sym, ap, subst, ◌∙◌, arith, false,
  List, [], ◌∷◌, ◌++◌, ltb, leb, ◌==◌, if◌then◌else◌, Result, ok, require_that, ◌>>=◌, ◌>>◌, length,
  take, require_that-eq-ok, >>=-eq-ok, ok-inj, lt→ltb, ltb→lt, leb→le, le→leb, same_text,
  same_text_refl, Bool-cases, inl, inr, length-append,
}
use qlyphs_wallet.Refusal.{Refusal, compact_out_of_range, compact_too_wide, non_canonical_compact}
use qlyphs_wallet.Operations.{max_u128}
use qlyphs_wallet.Wire.Bytes.{low_bytes, uint, compact, width_from}
use qlyphs_wallet.Wire.Reading.{Read, read_int, read_int-uint}

-- The number after its first byte, the tag.
unfoldable pub read_mode : ℕ → List ℕ → Result Refusal (Read ℕ)
unfolding read_int
read_mode tag input =
    if tag % 4 == 0
    then ok (record { value = tag / 4; rest = input })
    else if tag % 4 == 1
    then (read_int 1 input >>= λ r.
        ok (record { value = (tag + 256 * r.value) / 4; rest = r.rest }))
    else if tag % 4 == 2
    then (read_int 3 input >>= λ r.
        ok (record { value = (tag + 256 * r.value) / 4; rest = r.rest }))
    else (require_that (leb (tag / 4 + 4) 16) compact_too_wide >> read_int (tag / 4 + 4) input)

-- The bytes that were read must be those that `compact` writes.
abbrev pub canonical : List ℕ → Read ℕ → Result Refusal (Read ℕ)
canonical input r = compact r.value >>= λ bs.
    require_that (same_text (take (length input - length r.rest) input) bs) non_canonical_compact
    >> ok r

-- `compact()`
unfoldable pub read_compact : List ℕ → Result Refusal (Read ℕ)
unfolding read_mode
read_compact input =
    read_int 1 input >>= λ tag. read_mode tag.value tag.rest >>= λ r. canonical input r

take-length : (bs rest : List ℕ) → take (length bs) (bs ++ rest) ≡ bs
take-length [] rest = refl
take-length (b ∷ bs) rest = ap (λ xs. b ∷ xs) (take-length bs rest)

consumed : (bs rest : List ℕ) → length (bs ++ rest) - length rest ≡ length bs
consumed bs rest = omega (arith, length-append bs rest)

canonical_lem :
    (v : ℕ) (bs rest : List ℕ)
    → compact v ≡ ok bs
    → canonical (bs ++ rest) (record { value = v; rest = rest })
      ≡ ok (record { value = v; rest = rest })
canonical_lem v bs rest h = rw (h, consumed bs rest, take-length bs rest, same_text_refl bs) refl

le→not_ltb : (a b : ℕ) → a ≤ b → ltb b a ≡ false
le→not_ltb a b h = ground arith

not_ltb : (a b : ℕ) → ltb a b ≡ false → b ≤ a
not_ltb a b h = ground arith

tag_only : (t : ℕ) → t + 256 * 0 ≡ t
tag_only t = omega arith

small_enough : (v : ℕ) {bs : List ℕ} → compact v ≡ ok bs → v ≤ max_u128
unfolding compact
small_enough v h =
    leb→le v max_u128 (require_that-eq-ok (leb v max_u128) compact_out_of_range _ h).0

-- What a written number looks like: its first byte, and what reading after it gives back.
abbrev Written : ℕ → List ℕ → List ℕ → Type 0
Written v rest bs =
    (tag : ℕ) × (tail : List ℕ) × (bs ≡ tag ∷ tail)
    × (read_mode tag (tail ++ rest) ≡ ok (record { value = v; rest = rest }))

one_byte : (v : ℕ) → v < 64 → compact v ≡ ok (v * 4 % 256 ∷ [])
unfolding compact uint low_bytes
one_byte v h =
    rw (le→leb v max_u128 (omega arith), lt→ltb v 64 h, lt→ltb (v * 4) 256 (omega arith)) refl

two_bytes :
    (v : ℕ)
    → 64 ≤ v
    → v < 16384
    → compact v ≡ ok ((v * 4 + 1) % 256 ∷ ((v * 4 + 1) / 256 % 256 ∷ []))
unfolding compact uint low_bytes
two_bytes v l h =
    rw
      (
        le→leb v max_u128 (omega arith),
        le→not_ltb 64 v l,
        lt→ltb v 16384 h,
        lt→ltb (v * 4 + 1) 65536 (omega arith),
      )
      refl

four_bytes :
    (v : ℕ)
    → 16384 ≤ v
    → v < 1_073_741_824
    → compact v
      ≡ ok (
          (v * 4 + 2) % 256
          ∷ ((v * 4 + 2) / 256 % 256
              ∷ ((v * 4 + 2) / 256 / 256 % 256 ∷ ((v * 4 + 2) / 256 / 256 / 256 % 256 ∷ []))))
unfolding compact uint low_bytes
four_bytes v l h =
    rw
      (
        le→leb v max_u128 (omega arith),
        le→not_ltb 64 v (omega arith),
        le→not_ltb 16384 v l,
        lt→ltb v 1_073_741_824 h,
        lt→ltb (v * 4 + 2) 4_294_967_296 (omega arith),
      )
      refl

mode_0 :
    (tag v : ℕ) (rest : List ℕ)
    → tag % 4 ≡ 0
    → tag / 4 ≡ v
    → read_mode tag rest ≡ ok (record { value = v; rest = rest })
unfolding read_mode
mode_0 tag v rest e f = rw (e, f) refl

mode_1 :
    (tag b v : ℕ) (rest : List ℕ)
    → tag % 4 ≡ 1
    → (tag + 256 * (b + 256 * 0)) / 4 ≡ v
    → read_mode tag (b ∷ rest) ≡ ok (record { value = v; rest = rest })
unfolding read_mode
mode_1 tag b v rest e f = rw (e, f) refl

mode_2 :
    (tag b c d v : ℕ) (rest : List ℕ)
    → tag % 4 ≡ 2
    → (tag + 256 * (b + 256 * (c + 256 * (d + 256 * 0)))) / 4 ≡ v
    → read_mode tag (b ∷ (c ∷ (d ∷ rest))) ≡ ok (record { value = v; rest = rest })
unfolding read_mode
mode_2 tag b c d v rest e f = rw (e, f) refl

mode_3 :
    (tag n : ℕ) (input : List ℕ)
    → tag % 4 ≡ 3
    → tag / 4 + 4 ≡ n
    → n ≤ 16
    → read_mode tag input ≡ read_int n input
unfolding read_mode
mode_3 tag n input e f h = rw (e, f, le→leb n 16 h) refl

width_from-le : (fuel v n : ℕ) → (n ≤ width_from fuel v n) × (width_from fuel v n ≤ n + fuel)
unfolding width_from
width_from-le zero v n = omega arith
width_from-le (suc fuel) v n = ground (arith, width_from-le fuel v (n + 1))

many_bytes :
    (v : ℕ)
    → 1_073_741_824 ≤ v
    → v ≤ max_u128
    → compact v ≡ (uint v (width_from 12 v 4) >>= λ bs. ok (((width_from 12 v 4 - 4) * 4 + 3) ∷ bs))
unfolding compact
many_bytes v l h =
    rw
      (
        le→leb v max_u128 h,
        le→not_ltb 64 v (omega arith),
        le→not_ltb 16384 v (omega arith),
        le→not_ltb 1_073_741_824 v l,
      )
      refl

-- Every written number is read back by its first byte.
compact-Written : (v : ℕ) (rest : List ℕ) {bs : List ℕ} → compact v ≡ ok bs → Written v rest bs
compact-Written v rest {bs} h = elim (Bool-cases (ltb v 64)) [
  | inl a ↦ (
    v * 4 % 256,
    [],
    ok-inj (sym h ∙ one_byte v (ltb→lt v 64 a)),
    mode_0 (v * 4 % 256) v rest (omega arith) (omega (arith, ltb→lt v 64 a)),
  )
  | inr a ↦ elim (Bool-cases (ltb v 16384)) [
    | inl b ↦ (
      (v * 4 + 1) % 256,
      (v * 4 + 1) / 256 % 256 ∷ [],
      ok-inj (sym h ∙ two_bytes v (not_ltb v 64 a) (ltb→lt v 16384 b)),
      mode_1 ((v * 4 + 1) % 256) ((v * 4 + 1) / 256 % 256) v rest (omega arith)
          (omega (arith, ltb→lt v 16384 b)),
    )
    | inr b ↦ elim (Bool-cases (ltb v 1_073_741_824)) [
      | inl c ↦ (
        (v * 4 + 2) % 256,
        (v * 4 + 2) / 256 % 256
            ∷ ((v * 4 + 2) / 256 / 256 % 256 ∷ ((v * 4 + 2) / 256 / 256 / 256 % 256 ∷ [])),
        ok-inj (sym h ∙ four_bytes v (not_ltb v 16384 b) (ltb→lt v 1_073_741_824 c)),
        mode_2 ((v * 4 + 2) % 256) ((v * 4 + 2) / 256 % 256) ((v * 4 + 2) / 256 / 256 % 256)
            ((v * 4 + 2) / 256 / 256 / 256 % 256) v rest (omega arith)
            (omega (arith, ltb→lt v 1_073_741_824 c)),
      )
      | inr c ↦
          let n = width_from 12 v 4 in
          let size = width_from-le 12 v 4 in
          let body =
            >>=-eq-ok (uint v n) (λ bs. ok (((n - 4) * 4 + 3) ∷ bs))
              (sym (many_bytes v (not_ltb v 1_073_741_824 c) (small_enough v h)) ∙ h) in
          (
            (n - 4) * 4 + 3,
            body.0,
            ok-inj (sym body.2),
            mode_3 ((n - 4) * 4 + 3) n (body.0 ++ rest) (omega arith) (omega (arith, size.0))
                  (omega (arith, size.1))
                ∙ read_int-uint v n rest body.1,
          )
    ]
  ]
]

-- Every amount that can be written as a compact integer is read back from its bytes, which are taken
-- for canonical, and exactly the bytes that follow are left.
pub read_compact-compact :
    (v : ℕ) (rest : List ℕ) {bs : List ℕ}
    → compact v ≡ ok bs
    → read_compact (bs ++ rest) ≡ ok (record { value = v; rest = rest })
unfolding read_compact
read_compact-compact v rest {bs} h =
    let w = compact-Written v rest h in
    subst (λ xs. read_compact (xs ++ rest) ≡ ok (record { value = v; rest = rest })) (sym w.2)
      (rw (tag_only w.0, w.3) (canonical_lem v (w.0 ∷ w.1) rest (h ∙ ap ok w.2)))
