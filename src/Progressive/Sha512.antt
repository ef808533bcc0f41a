-- ===== src/Progressive/Sha512.antt =====
-- `sha512` of packages/native/src/sha512.ts: a word is a number below 2 ^ 64 and a byte array the list
-- of its bytes.
use qlyphs_wallet.Prelude.{
  ℕ, zero, suc, ◌+◌, ◌-◌, ◌*◌, ◌/◌, ◌%◌, ◌^◌, none, some, List, [], ◌∷◌, ◌++◌, length, get_elem?,
  take, drop, replicate, reverse,
}
use qlyphs_wallet.Wire.Bytes.{low_bytes, spelled}

-- The cube roots' words `K`.
abbrev pub round_words : List ℕ
round_words =
    0x428a2f98d728ae22 ∷ 0x7137449123ef65cd ∷ 0xb5c0fbcfec4d3b2f ∷ 0xe9b5dba58189dbbc
    ∷ 0x3956c25bf348b538 ∷ 0x59f111f1b605d019 ∷ 0x923f82a4af194f9b ∷ 0xab1c5ed5da6d8118
    ∷ 0xd807aa98a3030242 ∷ 0x12835b0145706fbe ∷ 0x243185be4ee4b28c ∷ 0x550c7dc3d5ffb4e2
    ∷ 0x72be5d74f27b896f ∷ 0x80deb1fe3b1696b1 ∷ 0x9bdc06a725c71235 ∷ 0xc19bf174cf692694
    ∷ 0xe49b69c19ef14ad2 ∷ 0xefbe4786384f25e3 ∷ 0x0fc19dc68b8cd5b5 ∷ 0x240ca1cc77ac9c65
    ∷ 0x2de92c6f592b0275 ∷ 0x4a7484aa6ea6e483 ∷ 0x5cb0a9dcbd41fbd4 ∷ 0x76f988da831153b5
    ∷ 0x983e5152ee66dfab ∷ 0xa831c66d2db43210 ∷ 0xb00327c898fb213f ∷ 0xbf597fc7beef0ee4
    ∷ 0xc6e00bf33da88fc2 ∷ 0xd5a79147930aa725 ∷ 0x06ca6351e003826f ∷ 0x142929670a0e6e70
    ∷ 0x27b70a8546d22ffc ∷ 0x2e1b21385c26c926 ∷ 0x4d2c6dfc5ac42aed ∷ 0x53380d139d95b3df
    ∷ 0x650a73548baf63de ∷ 0x766a0abb3c77b2a8 ∷ 0x81c2c92e47edaee6 ∷ 0x92722c851482353b
    ∷ 0xa2bfe8a14cf10364 ∷ 0xa81a664bbc423001 ∷ 0xc24b8b70d0f89791 ∷ 0xc76c51a30654be30
    ∷ 0xd192e819d6ef5218 ∷ 0xd69906245565a910 ∷ 0xf40e35855771202a ∷ 0x106aa07032bbd1b8
    ∷ 0x19a4c116b8d2d0c8 ∷ 0x1e376c085141ab53 ∷ 0x2748774cdf8eeb99 ∷ 0x34b0bcb5e19b48a8
    ∷ 0x391c0cb3c5c95a63 ∷ 0x4ed8aa4ae3418acb ∷ 0x5b9cca4f7763e373 ∷ 0x682e6ff3d6b2b8a3
    ∷ 0x748f82ee5defb2fc ∷ 0x78a5636f43172f60 ∷ 0x84c87814a1f0ab72 ∷ 0x8cc702081a6439ec
    ∷ 0x90befffa23631e28 ∷ 0xa4506cebde82bde9 ∷ 0xbef9a3f7b2c67915 ∷ 0xc67178f2e372532b
    ∷ 0xca273eceea26619c ∷ 0xd186b8c721c0c207 ∷ 0xeada7dd6cde0eb1e ∷ 0xf57d4f7fee6ed178
    ∷ 0x06f067aa72176fba ∷ 0x0a637dc5a2c898a6 ∷ 0x113f9804bef90dae ∷ 0x1b710b35131c471b
    ∷ 0x28db77f523047d84 ∷ 0x32caab7b40c72493 ∷ 0x3c9ebe0a15c9bebc ∷ 0x431d67c49c100d4c
    ∷ 0x4cc5d4becb3e42b6 ∷ 0x597f299cfc657e2a ∷ 0x5fcb6fab3ad6faec ∷ 0x6c44198c4a475817 ∷ []

-- The square roots' words `IV`.
abbrev pub initial_words : List ℕ
initial_words =
    0x6a09e667f3bcc908 ∷ 0xbb67ae8584caa73b ∷ 0x3c6ef372fe94f82b ∷ 0xa54ff53a5f1d36f1
    ∷ 0x510e527fade682d1 ∷ 0x9b05688c2b3e6c1f ∷ 0x1f83d9abfb41bd6b ∷ 0x5be0cd19137e2179 ∷ []

-- One more than `MASK`.
abbrev pub word_size : ℕ
word_size = 2 ^ 64

-- A bitwise operation on the `n` low bits.
abbrev pub bitwise : (ℕ → ℕ → ℕ) → ℕ → ℕ → ℕ → ℕ
bitwise bit zero a b = 0
bitwise bit (suc n) a b = bit (a % 2) (b % 2) + 2 * bitwise bit n (a / 2) (b / 2)

abbrev pub xor_word : ℕ → ℕ → ℕ
xor_word = bitwise (λ a b. (a + b) % 2) 64

abbrev pub and_word : ℕ → ℕ → ℕ
and_word = bitwise (λ a b. a * b) 64

-- `~x & MASK`
abbrev pub not_word : ℕ → ℕ
not_word x = word_size - 1 - x

-- `rotr`: the two shifted parts have no bit in common, so that their union is their sum.
abbrev pub rotr : ℕ → ℕ → ℕ
rotr x n = (x / 2 ^ n + x * 2 ^ (64 - n)) % word_size

-- `w[i]!`
abbrev pub word_at : List ℕ → ℕ → ℕ
word_at w i = elim (get_elem? w i) [ none ↦ 0 | some x ↦ x ]

-- The next word of the schedule, whose words stand in `w` with the last one first.
abbrev pub next_word : List ℕ → ℕ
next_word w =
    let a = word_at w 14 in
    let b = word_at w 1 in
    let s0 = xor_word (xor_word (rotr a 1) (rotr a 8)) (a / 2 ^ 7) in
    let s1 = xor_word (xor_word (rotr b 19) (rotr b 61)) (b / 2 ^ 6) in
    (word_at w 15 + s0 + word_at w 6 + s1) % word_size

abbrev pub extended : ℕ → List ℕ → List ℕ
extended zero w = w
extended (suc n) w = extended n (next_word w ∷ w)

pub record Working : Type 0 where
  pub a : ℕ
  pub b : ℕ
  pub c : ℕ
  pub d : ℕ
  pub e : ℕ
  pub f : ℕ
  pub g : ℕ
  pub hh : ℕ

abbrev pub round : ℕ → ℕ → Working → Working
round k w v =
    let sum1 = xor_word (xor_word (rotr v.e 14) (rotr v.e 18)) (rotr v.e 41) in
    let choice = xor_word (and_word v.e v.f) (and_word (not_word v.e) v.g) in
    let t1 = (v.hh + sum1 + choice + k + w) % word_size in
    let sum0 = xor_word (xor_word (rotr v.a 28) (rotr v.a 34)) (rotr v.a 39) in
    let majority = xor_word (xor_word (and_word v.a v.b) (and_word v.a v.c)) (and_word v.b v.c) in
    let t2 = (sum0 + majority) % word_size in
    record {
      a = (t1 + t2) % word_size;
      b = v.a;
      c = v.b;
      d = v.c;
      e = (v.d + t1) % word_size;
      f = v.e;
      g = v.f;
      hh = v.g;
    }

abbrev pub rounds : List ℕ → List ℕ → Working → Working
rounds (k ∷ ks) (w ∷ ws) v = rounds ks ws (round k w v)
rounds _ _ v = v

-- The sums of `h` and the working variables.
abbrev pub chained : Working → Working → Working
chained h v = record {
  a = (h.a + v.a) % word_size;
  b = (h.b + v.b) % word_size;
  c = (h.c + v.c) % word_size;
  d = (h.d + v.d) % word_size;
  e = (h.e + v.e) % word_size;
  f = (h.f + v.f) % word_size;
  g = (h.g + v.g) % word_size;
  hh = (h.hh + v.hh) % word_size;
}

-- The first `n` words of eight bytes, the last one first.
abbrev pub words : ℕ → List ℕ → List ℕ → List ℕ
words zero m w = w
words (suc n) m w = words n (drop 8 m) (spelled 0 (take 8 m) ∷ w)

abbrev pub compress : List ℕ → Working → Working
compress m h = chained h (rounds round_words (reverse (extended 64 (words 16 m []))) h)

-- As many blocks of 128 bytes as the padded message has.
abbrev pub compress_all : ℕ → List ℕ → Working → Working
compress_all zero m h = h
compress_all (suc blocks) m h = compress_all blocks (drop 128 m) (compress m h)

abbrev pub block_count : List ℕ → ℕ
block_count input = (length input + 17 + 127) / 128

-- The message, 0x80, zeros and its length in bits as sixteen bytes.
abbrev pub padded : List ℕ → List ℕ
padded input =
    input
    ++ (0x80
        ∷ (replicate (block_count input * 128 - length input - 17) 0
            ++ reverse (low_bytes (8 * length input) 16)))

abbrev pub word_bytes : ℕ → List ℕ
word_bytes x = reverse (low_bytes x 8)

abbrev pub initial : Working
initial = record {
  a = word_at initial_words 0;
  b = word_at initial_words 1;
  c = word_at initial_words 2;
  d = word_at initial_words 3;
  e = word_at initial_words 4;
  f = word_at initial_words 5;
  g = word_at initial_words 6;
  hh = word_at initial_words 7;
}

abbrev pub digest : Working → List ℕ
digest h =
    word_bytes h.a
    ++ (word_bytes h.b
        ++ (word_bytes h.c
            ++ (word_bytes h.d
                ++ (word_bytes h.e ++ (word_bytes h.f ++ (word_bytes h.g ++ word_bytes h.hh))))))

unfoldable pub sha512 : List ℕ → List ℕ
unfolding low_bytes spelled
sha512 input = digest (compress_all (block_count input) (padded input) initial)
