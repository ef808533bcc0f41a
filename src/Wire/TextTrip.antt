-- ===== src/Wire/TextTrip.antt =====
-- Symbols and content types written and read back: packages/native/src/codec.ts.
use qlyphs_wallet.Prelude.{
  ℕ, ◌≤◌, ◌≡◌, refl, arith, Bool, true, false, ◌&&◌, ◌||◌, List, [], ◌∷◌, ◌++◌, length, every, ltb,
  leb, ◌==◌, ok, require_that-eq-ok, leb→le, &&-true, Bool-cases, inl, inr,
}
use qlyphs_wallet.Refusal.{invalid_symbol}
use qlyphs_wallet.Fees.Rate.{is_symbol}
use qlyphs_wallet.Wire.Bytes.{vec}
use qlyphs_wallet.Wire.Fields.{read_vector-vec}
use qlyphs_wallet.Wire.Payload.{
  is_content_type, symbol_bytes, media_type, media_rest, media_subtype, is_media, is_alphanumeric,
}
use qlyphs_wallet.Wire.Decoding.{read_text}

module _ (p q : ℕ → Bool) (imp : (c : ℕ) → p c ≡ true → q c ≡ true) where
  every-imp : (xs : List ℕ) → every p xs ≡ true → every q xs ≡ true
  every-imp [] h = refl
  every-imp (x ∷ xs) h =
      let both = &&-true (p x) (every p xs) h in rw (imp x both.0, every-imp xs both.1) refl

symbol_ascii :
    (c : ℕ) → ((leb b'A' c && leb c b'Z') || (leb b'0' c && leb c b'9')) ≡ true → ltb c 128 ≡ true
symbol_ascii c h = ground arith

media_ascii : (c : ℕ) → is_media c ≡ true → ltb c 128 ≡ true
media_ascii c h = ground arith

alphanumeric_ascii : (c : ℕ) → is_alphanumeric c ≡ true → ltb c 128 ≡ true
alphanumeric_ascii c h = ground arith

slash_ascii : (c : ℕ) → (c == b'/') ≡ true → ltb c 128 ≡ true
slash_ascii c h = ground arith

or_right : (a b : Bool) → a ≡ false → (a || b) ≡ true → b ≡ true
or_right a b e h = ground arith

media_subtype_ascii : (cs : List ℕ) → media_subtype cs ≡ true → every (λ b. ltb b 128) cs ≡ true
media_subtype_ascii [] h = cc
media_subtype_ascii (c ∷ cs) h =
    let both = &&-true (is_alphanumeric c) (every is_media cs) h in
    rw (alphanumeric_ascii c both.0, every-imp _ _ media_ascii cs both.1) refl

media_rest_ascii : (cs : List ℕ) → media_rest cs ≡ true → every (λ b. ltb b 128) cs ≡ true
media_rest_ascii [] h = cc
media_rest_ascii (c ∷ cs) h = elim (Bool-cases (c == b'/' && media_subtype cs)) [
  | inl slash ↦
      let both = &&-true (c == b'/') (media_subtype cs) slash in
      rw (slash_ascii c both.0, media_subtype_ascii cs both.1) refl
  | inr other ↦
      let both = &&-true (is_media c) (media_rest cs) (or_right _ _ other h) in
      rw (media_ascii c both.0, media_rest_ascii cs both.1) refl
]

media_type_ascii : (cs : List ℕ) → media_type cs ≡ true → every (λ b. ltb b 128) cs ≡ true
media_type_ascii [] h = cc
media_type_ascii (c ∷ cs) h =
    let both = &&-true (is_alphanumeric c) (media_rest cs) h in
    rw (alphanumeric_ascii c both.0, media_rest_ascii cs both.1) refl

-- A text that `vec` wrote is read back, if it is short and ASCII.
pub read_text_lem :
    (most : ℕ) (xs rest : List ℕ) {bs : List ℕ}
    → length xs ≤ most
    → every (λ b. ltb b 128) xs ≡ true
    → vec xs ≡ ok bs
    → read_text most (bs ++ rest) ≡ ok (record { value = xs; rest = rest })
unfolding read_text
read_text_lem most xs rest l a h = rw (read_vector-vec most xs rest l h, a) refl

pub symbol_lem :
    (xs rest : List ℕ) {bs : List ℕ}
    → symbol_bytes xs ≡ ok bs
    → read_text 12 (bs ++ rest) ≡ ok (record { value = xs; rest = rest })
unfolding is_symbol
symbol_lem xs rest h =
    let named = require_that-eq-ok (is_symbol xs) invalid_symbol _ h in
    let sized = &&-true (leb 1 (length xs) && leb (length xs) 12) _ named.0 in
    let short = &&-true (leb 1 (length xs)) (leb (length xs) 12) sized.0 in
    read_text_lem 12 xs rest (leb→le (length xs) 12 short.1) (every-imp _ _ symbol_ascii xs sized.1)
      named.1

pub content_type_text :
    (t : List ℕ) → is_content_type t ≡ true → (length t ≤ 64) × (every (λ b. ltb b 128) t ≡ true)
unfolding is_content_type
content_type_text t h =
    let sized = &&-true (leb 3 (length t) && leb (length t) 64) (media_type t) h in
    (
      leb→le (length t) 64 (&&-true (leb 3 (length t)) (leb (length t) 64) sized.0).1,
      media_type_ascii t sized.1,
    )
