-- ===== src/Exchange/Rank.antt =====
-- Ranks, offer slots and warnings: packages/shared/src/rank.ts
use qlyphs_wallet.Prelude.{
  ℕ, zero, suc, ◌+◌, ◌-◌, ◌≤◌, ◌<◌, ◌≡◌, sym, ap, subst, ◌∙◌, arith, Bool-cases, ltb→lt, false, leb,
  ltb, ◌==◌, if◌then◌else◌, List, [], ◌∷◌, Option, none, some, inl, inr,
}

pub data AccountStatus : Type 0 where
  active restricted banned : AccountStatus

pub record RankTier : Type 0 where
  pub rank : ℕ
  pub min_trades : ℕ
  pub slots : ℕ

abbrev pub base_tier : RankTier
base_tier = record { rank = 0; min_trades = 0; slots = 2 }

abbrev pub rank_tiers : List RankTier
rank_tiers =
    record { rank = 0; min_trades = 0; slots = 2 }
    ∷ record { rank = 1; min_trades = 3; slots = 5 }
    ∷ record { rank = 2; min_trades = 15; slots = 10 }
    ∷ record { rank = 3; min_trades = 50; slots = 25 }
    ∷ []

-- The loop of `tierForTrades`: the last tier that the trades reach.
abbrev pub last_reached : List RankTier → ℕ → RankTier → RankTier
last_reached [] n current = current
last_reached (tier ∷ tiers) n current =
    last_reached tiers n (if leb tier.min_trades n then tier else current)

unfoldable pub tier_for_trades : ℕ → RankTier
tier_for_trades completed_trades = last_reached rank_tiers completed_trades base_tier

unfoldable pub rank_for_trades : ℕ → ℕ
unfolding tier_for_trades
rank_for_trades completed_trades = (tier_for_trades completed_trades).rank

-- `RANK_TIERS.find(t => t.rank === rank)`
abbrev pub find_tier : List RankTier → ℕ → Option RankTier
find_tier [] rank = none
find_tier (tier ∷ tiers) rank = if tier.rank == rank then some tier else find_tier tiers rank

unfoldable pub offer_slots : ℕ → AccountStatus → ℕ
unfolding tier_for_trades
offer_slots completed_trades active = (tier_for_trades completed_trades).slots
offer_slots completed_trades _ = 0

pub record NextTier : Type 0 where
  pub tier : RankTier
  pub trades_needed : ℕ

abbrev pub missing : ℕ → Option RankTier → Option NextTier
missing completed_trades none = none
missing completed_trades (some next) =
    some (record { tier = next; trades_needed = next.min_trades - completed_trades })

unfoldable pub next_tier : ℕ → Option NextTier
unfolding rank_for_trades
next_tier completed_trades =
    missing completed_trades (find_tier rank_tiers (rank_for_trades completed_trades + 1))

pub data WarningConsequence : Type 0 where
  no_consequence notice restriction ban : WarningConsequence

unfoldable pub warning_consequence : ℕ → WarningConsequence
warning_consequence zero = no_consequence
warning_consequence (suc zero) = notice
warning_consequence (suc (suc zero)) = restriction
warning_consequence (suc (suc (suc n))) = ban

not_ltb : (a b : ℕ) → ltb a b ≡ false → b ≤ a
not_ltb a b h = ground arith

abbrev tier_1 : RankTier
tier_1 = record { rank = 1; min_trades = 3; slots = 5 }

abbrev tier_2 : RankTier
tier_2 = record { rank = 2; min_trades = 15; slots = 10 }

abbrev tier_3 : RankTier
tier_3 = record { rank = 3; min_trades = 50; slots = 25 }

first_tier : (n : ℕ) → n < 3 → tier_for_trades n ≡ base_tier
unfolding tier_for_trades
first_tier n h = ground arith

second_tier : (n : ℕ) → 3 ≤ n → n < 15 → tier_for_trades n ≡ tier_1
unfolding tier_for_trades
second_tier n h1 h2 = ground arith

third_tier : (n : ℕ) → 15 ≤ n → n < 50 → tier_for_trades n ≡ tier_2
unfolding tier_for_trades
third_tier n h1 h2 = ground arith

fourth_tier : (n : ℕ) → 50 ≤ n → tier_for_trades n ≡ tier_3
unfolding tier_for_trades
fourth_tier n h = ground arith

-- The announced tier is one rank above the present one and is reached after exactly the announced
-- number of trades; none is announced at the highest rank, 3.
abbrev pub Reaches : ℕ → Option NextTier → Type 0
Reaches n none = (50 ≤ n) × ((tier_for_trades n).rank ≡ 3)
Reaches n (some t) =
    (n < 50)
    × (t.tier.rank ≡ (tier_for_trades n).rank + 1)
    × (0 < t.trades_needed)
    × (tier_for_trades (n + t.trades_needed) ≡ t.tier)
    × ((k : ℕ) → k < t.trades_needed → tier_for_trades (n + k) ≡ tier_for_trades n)

next_of :
    (n : ℕ) {t : RankTier}
    → tier_for_trades n ≡ t
    → next_tier n ≡ missing n (find_tier rank_tiers (t.rank + 1))
unfolding next_tier rank_for_trades
next_of n h = ap (λ t. missing n (find_tier rank_tiers (t.rank + 1))) h

-- For every number of completed trades below fifty, a next tier is announced; it is one rank above the
-- present one, it is reached by exactly the announced number of further trades, at least one, and with
-- fewer the present tier remains. From fifty trades on none is announced, at the highest rank.
pub next_tier-Reaches : (n : ℕ) → Reaches n (next_tier n)
next_tier-Reaches n = elim (Bool-cases (ltb n 3)) [
  | inl e ↦
      let h = ltb→lt n 3 e in
      subst (Reaches n) (sym (next_of n (first_tier n h))) (
        omega (arith, h),
        ap (λ t. t.rank + 1) (sym (first_tier n h)),
        omega (arith, h),
        second_tier (n + (3 - n)) (omega (arith, h)) (omega (arith, h)),
        λ k hk. first_tier (n + k) (omega (arith, h)) ∙ sym (first_tier n h),
      )
  | inr e ↦ elim (Bool-cases (ltb n 15)) [
    | inl f ↦
        let low = not_ltb n 3 e in
        let h = ltb→lt n 15 f in
        subst (Reaches n) (sym (next_of n (second_tier n low h))) (
          omega (arith, h),
          ap (λ t. t.rank + 1) (sym (second_tier n low h)),
          omega (arith, h),
          third_tier (n + (15 - n)) (omega (arith, h)) (omega (arith, h)),
          λ k hk.
              second_tier (n + k) (omega (arith, low)) (omega (arith, h))
              ∙ sym (second_tier n low h),
        )
    | inr f ↦ elim (Bool-cases (ltb n 50)) [
      | inl g ↦
          let low = not_ltb n 15 f in
          let h = ltb→lt n 50 g in
          subst (Reaches n) (sym (next_of n (third_tier n low h))) (
            omega (arith, h),
            ap (λ t. t.rank + 1) (sym (third_tier n low h)),
            omega (arith, h),
            fourth_tier (n + (50 - n)) (omega (arith, h)),
            λ k hk.
                third_tier (n + k) (omega (arith, low)) (omega (arith, h))
                ∙ sym (third_tier n low h),
          )
      | inr g ↦
          let low = not_ltb n 50 g in
          subst (Reaches n) (sym (next_of n (fourth_tier n low)))
            (low, ap (λ t. t.rank) (fourth_tier n low))
    ]
  ]
]
