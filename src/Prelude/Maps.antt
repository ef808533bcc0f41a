-- ===== src/Prelude/Maps.antt =====
-- JavaScript's `Map` as the list of its entries in the order of their insertion: `set` replaces the
-- value of a key that is there and appends an entry otherwise.
use Prim.Native.Nat.{ℕ, ◌+◌}
use mathlib.Core.Path.{◌≡◌, sym, ap, ◌∙◌}
use mathlib.Core.Bool.{Bool, true, false, ◌&&◌}
use mathlib.Core.Option.{Option, none, some}
use mathlib.Core.List.{List, [], ◌∷◌}
use native.Mathlib.Omega.{arith}
use qlyphs_wallet.Prelude.Tests.{◌==◌, ==-refl, ==→eq, if◌then◌else◌, Bool-cases, &&-true}
use mathlib.Core.Logic.{inl, inr}
use qlyphs_wallet.Prelude.Text.{same_text, same_text-eq, same_text_refl}

-- Keys and their `===`.
pub record Key (K : Type 0) : Type 0 where
  pub same : K → K → Bool
  pub same_refl : (k : K) → same k k ≡ true
  pub same-eq : (k l : K) → same k l ≡ true → k ≡ l

pub record Pair : Type 0 where
  pub left : ℕ
  pub right : ℕ

abbrev pub same_pair : Pair → Pair → Bool
same_pair p q = p.left == q.left && p.right == q.right

pub same_pair-eq : (p q : Pair) → same_pair p q ≡ true → p ≡ q
same_pair-eq p q h =
    let both = &&-true (p.left == q.left) (p.right == q.right) h in
    λ i. record { left = ==→eq p.left q.left both.0 i; right = ==→eq p.right q.right both.1 i }

pub same_pair_refl : (p : Pair) → same_pair p p ≡ true
same_pair_refl p = rw (==-refl p.left, ==-refl p.right)

instance abbrev pub number_key : Key ℕ
number_key = record { same = ◌==◌; same_refl = ==-refl; same-eq = ==→eq }

instance abbrev pub text_key : Key (List ℕ)
text_key = record { same = same_text; same_refl = same_text_refl; same-eq = same_text-eq }

instance abbrev pub pair_key : Key Pair
pair_key = record { same = same_pair; same_refl = same_pair_refl; same-eq = same_pair-eq }

pub record Entry {ℓ} (K : Type 0) (V : Type ℓ) : Type ℓ where
  pub key : K
  pub value : V

module _ {ℓ} {K : Type 0} {V : Type ℓ} ⦃key : Key K⦄ where
  abbrev pub get : List (Entry K V) → K → Option V
  get [] k = none
  get (e ∷ m) k = if key.same e.key k then some e.value else get m k

  abbrev pub set : List (Entry K V) → K → V → List (Entry K V)
  set [] k v = record { key = k; value = v } ∷ []
  set (e ∷ m) k v =
      let rest = e ∷ set m k v in
      if key.same e.key k then record { key = e.key; value = v } ∷ m else rest

  abbrev pub delete : List (Entry K V) → K → List (Entry K V)
  delete [] k = []
  delete (e ∷ m) k = if key.same e.key k then m else e ∷ delete m k

  abbrev pub sum_of : (K → V → ℕ) → List (Entry K V) → ℕ
  sum_of w [] = 0
  sum_of w (e ∷ m) = w e.key e.value + sum_of w m

  -- What the entry of a key adds to a sum.
  abbrev pub part_of : (K → V → ℕ) → K → Option V → ℕ
  part_of w k none = 0
  part_of w k (some v) = w k v

  pub sum_of-set :
      (w : K → V → ℕ) (m : List (Entry K V)) (k : K) (v : V)
      → sum_of w (set m k v) + part_of w k (get m k) ≡ sum_of w m + w k v
  sum_of-set w [] k v = omega arith
  sum_of-set w (e ∷ m) k v = elim (Bool-cases (key.same e.key k)) [
    | inl h ↦
        let kept : e.key ≡ k = key.same-eq e.key k h in
        rw h (omega (arith, ap (λ x. w x v) kept, ap (λ x. w x e.value) kept))
    | inr h ↦ rw h (omega (arith, sum_of-set w m k v))
  ]

  pub get-set : (m : List (Entry K V)) (k : K) (v : V) → get (set m k v) k ≡ some v
  get-set [] k v = rw (key.same_refl k)
  get-set (e ∷ m) k v = elim (Bool-cases (key.same e.key k)) [
    | inl h ↦ rw (h, h)
    | inr h ↦ rw (h, h, get-set m k v)
  ]

  pub get-set_other :
      (m : List (Entry K V)) (k : K) (v : V) (l : K)
      → key.same k l ≡ false
      → get (set m k v) l ≡ get m l
  get-set_other [] k v l hl = rw hl
  get-set_other (e ∷ m) k v l hl = elim (Bool-cases (key.same e.key k)) [
    | inl h ↦ rw h (
        ap (λ b. if b then some v else get m l)
          (ap (λ x. key.same x l) (key.same-eq e.key k h) ∙ hl)
        ∙ sym (
            ap (λ b. if b then some e.value else get m l)
              (ap (λ x. key.same x l) (key.same-eq e.key k h) ∙ hl)))
    | inr h ↦ rw (h, get-set_other m k v l hl)
  ]
