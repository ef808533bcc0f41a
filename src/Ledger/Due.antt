-- ===== src/Ledger/Due.antt =====
-- The fees that packages/native/src/protocol.ts asks for, by the kind of operation and the schedule.
use qlyphs_wallet.Prelude.{
  ℕ, ◌+◌, ◌≤◌, ◌<◌, Option, none, some, Bool, true, false, ◌&&◌, List, [], ◌∷◌, length, any_of, ltb,
  ◌==◌, same_text, codes, if◌then◌else◌, ◌≡◌, refl, sym, ap, subst, ◌∙◌, arith, ◌⊎◌, inl, inr,
  Bool-cases, &&-true, ltb→lt, Result, ok, err, ◌>>=◌, ok-inj, >>=-eq-ok, require_that-eq-ok,
}
use qlyphs_wallet.Refusal.{Refusal, invalid_symbol, symbol_blocked}
use qlyphs_wallet.Operations.{
  Operation, deploy, mint, transfer, offer, inscribe, deploy_progressive, deploy_progressive_v2,
  fee_rate, fee_admin,
}
use qlyphs_wallet.Fees.Rate.{
  is_rate_derived, legacy_fee, fee, is_symbol, is_blocked, SymbolClass, blocked_symbol, allowed,
  symbol_class, require_allowed,
}
use qlyphs_wallet.Fees.State.{
  Grid, FeeRules, FeeState, legacy, schedule, push_amount, grid_fees, allowed_fees,
}
use qlyphs_wallet.Ledger.Context.{FeeContext, mode_of, symbol_allowed}

-- What was paid for a rate-derived operation before there was a schedule.
abbrev pub old_fee : Operation → ℕ
old_fee (inscribe t c) = 100_000_000_000
old_fee op = 1_000_000_000_000

-- The amounts of the schedule at a height: the fee at the rate in force, or at the one before it while
-- that one is still kept, or the old fee within the grace after the schedule's start.
pub data RateDue (fees : FeeState) (rules : FeeRules) (op : Operation) (h n : ℕ) : Type 0 where
  at_current : fee op fees.current.rate ≡ ok n → RateDue fees rules op h n
  at_previous :
      (g : Grid) → fees.previous ≡ some g → fee op g.rate ≡ ok n → RateDue fees rules op h n
  at_old :
      rules.legacy_before ≡ true
      → h < rules.from + rules.grace
      → n ≡ old_fee op
      → RateDue fees rules op h n

-- A symbol of 1 to 12 characters that is none of the six names kept for others.
abbrev pub FreeSymbol : List ℕ → Type 0
FreeSymbol s =
    (1 ≤ length s)
    × (length s ≤ 12)
    × (any_of (same_text s) (
          codes "BTC"
          ∷ codes "ETH"
          ∷ codes "QLYPHS"
          ∷ codes "QTC"
          ∷ codes "USDC"
          ∷ codes "USDT"
          ∷ [])
        ≡ false)

abbrev pub FreelyNamed : Operation → Type 0
FreelyNamed (deploy p) = FreeSymbol p.symbol
FreelyNamed (deploy_progressive p) = FreeSymbol p.symbol
FreelyNamed (deploy_progressive_v2 p) = FreeSymbol p.symbol
FreelyNamed op = 0 ≤ 0

-- The amounts that may be paid for an operation: the fixed fee of a mint, the old fee where there is no
-- schedule yet, and otherwise one of the schedule's, for an operation that is freely named.
pub data Due (ctx : FeeContext) : Operation → ℕ → Type 0 where
  due_for_mint : (asset amount : ℕ) → Due ctx (mint asset amount) 10_000_000_000
  due_before : (op : Operation) → mode_of ctx ≡ legacy → Due ctx op (old_fee op)
  due_by_schedule :
      (op : Operation) (n : ℕ) (rules : FeeRules) (fees : FeeState)
      → mode_of ctx ≡ schedule
      → ctx.rules.fee_schedule ≡ some rules
      → ctx.fees ≡ some fees
      → FreelyNamed op
      → RateDue fees rules op ctx.height n
      → Due ctx op n

pushed-cases :
    (ms : List ℕ) (m n : ℕ)
    → any_of (λ x. x == n) (push_amount ms m) ≡ true
    → (any_of (λ x. x == n) ms ≡ true) ⊎ (m ≡ n)
unfolding push_amount
pushed-cases [] m n h = inr (ground arith)
pushed-cases (x ∷ ms) m n h = elim (Bool-cases (x == m)) [
  | inl e ↦ inl (rw e at h)
  | inr e ↦ elim (Bool-cases (x == n)) [
    | inl f ↦ inl (rw f refl)
    | inr f ↦ elim (pushed-cases ms m n (rw (e, f) at h)) [ inl g ↦ inl (rw f g) | inr g ↦ inr g ]
  ]
]

only_one : (m n : ℕ) → any_of (λ x. x == n) (m ∷ []) ≡ true → m ≡ n
only_one m n h = ground arith

pub old_fee_lem : (op : Operation) {n : ℕ} → legacy_fee op ≡ ok n → n ≡ old_fee op
unfolding legacy_fee is_rate_derived
old_fee_lem (deploy p) h = sym (ok-inj h)
old_fee_lem (inscribe t c) h = sym (ok-inj h)
old_fee_lem (deploy_progressive p) h = sym (ok-inj h)
old_fee_lem (deploy_progressive_v2 p) h = sym (ok-inj h)
old_fee_lem (mint a k) h = cc
old_fee_lem (transfer a k t) h = cc
old_fee_lem (offer p) h = cc
old_fee_lem (fee_rate e v) h = cc
old_fee_lem (fee_admin p) h = cc

-- The amounts that stand in the list of a grid, by the rate before it.
grid-RateDue :
    (fees : FeeState) (rules : FeeRules) (op : Operation) (h now n : ℕ) (o : Option Grid)
    {before : List ℕ}
    → fees.previous ≡ o
    → fee op fees.current.rate ≡ ok now
    → (elim o [
      | none ↦ ok (now ∷ [])
      | some g ↦ fee op g.rate >>= λ k. ok (push_amount (now ∷ []) k)
    ])
      ≡ ok before
    → any_of (λ m. m == n) before ≡ true
    → RateDue fees rules op h n
grid-RateDue fees rules op h now n none eo current e among =
    at_current (current ∙ ap ok (only_one now n (rw (sym (ok-inj e)) at among)))
grid-RateDue fees rules op h now n (some g) eo current e among =
    let earlier = >>=-eq-ok (fee op g.rate) _ e in
    elim (pushed-cases (now ∷ []) earlier.0 n
      (subst (λ l. any_of (λ m. m == n) l ≡ true) (sym (ok-inj earlier.2)) among)) [
        | inl here ↦ at_current (current ∙ ap ok (only_one now n here))
        | inr there ↦ at_previous g eo (earlier.1 ∙ ap ok there)
      ]

pub allowed-RateDue :
    (fees : FeeState) (rules : FeeRules) (op : Operation) (h n : ℕ) {amounts : List ℕ}
    → allowed_fees fees rules op h ≡ ok amounts
    → any_of (λ m. m == n) amounts ≡ true
    → RateDue fees rules op h n
unfolding allowed_fees grid_fees
allowed-RateDue fees rules op h n {amounts} e among =
    let now = >>=-eq-ok (fee op fees.current.rate) _ e in
    let before = >>=-eq-ok (grid_fees fees op now.0) _ now.2 in
    let in_grid : any_of (λ m. m == n) before.0 ≡ true → RateDue fees rules op h n =
      grid-RateDue fees rules op h now.0 n fees.previous refl now.1 before.1 in
    in_window (rules.legacy_before && ltb h (rules.from + rules.grace)) before.0 refl in_grid
      before.2
  where
    in_window :
        (window : Bool) (before : List ℕ)
        → (rules.legacy_before && ltb h (rules.from + rules.grace)) ≡ window
        → (any_of (λ m. m == n) before ≡ true → RateDue fees rules op h n)
        → (if window then (legacy_fee op >>= λ k. ok (push_amount before k)) else ok before)
          ≡ ok amounts
        → RateDue fees rules op h n
    in_window false before w in_grid e =
        in_grid (subst (λ l. any_of (λ m. m == n) l ≡ true) (sym (ok-inj e)) among)
    in_window true before w in_grid e =
        let old = >>=-eq-ok (legacy_fee op) _ e in
        elim (pushed-cases before old.0 n
          (subst (λ l. any_of (λ m. m == n) l ≡ true) (sym (ok-inj old.2)) among)) [
            | inl here ↦ in_grid here
            | inr there ↦
                let both = &&-true rules.legacy_before (ltb h (rules.from + rules.grace)) w in
                at_old both.0 (ltb→lt h (rules.from + rules.grace) both.1)
                  (sym there ∙ old_fee_lem op old.1)
          ]

not_blocked :
    (b : Bool) (class : SymbolClass) {done : Unit {0}}
    → ◌≡◌ {A = Result Refusal SymbolClass} (ok (if b then blocked_symbol else allowed)) (ok class)
    → ◌≡◌ {A = Result Refusal (Unit {0})}
        (elim class [ allowed ↦ ok tt | blocked_symbol ↦ err symbol_blocked ])
        (ok done)
    → b ≡ false
not_blocked false class e h = refl
not_blocked true allowed e h = cc
not_blocked true blocked_symbol e h = cc

allowed-FreeSymbol : (s : List ℕ) {done : Unit {0}} → require_allowed s ≡ ok done → FreeSymbol s
unfolding require_allowed symbol_class is_symbol is_blocked
allowed-FreeSymbol s h =
    let class = >>=-eq-ok (symbol_class s) _ h in
    let named = require_that-eq-ok (is_symbol s) invalid_symbol _ class.1 in
    let free = not_blocked (is_blocked s) class.0 named.1 class.2 in
    (ground (arith, named.0), ground (arith, named.0), free)

pub allowed-FreelyNamed :
    (op : Operation) {done : Unit {0}} → symbol_allowed op ≡ ok done → FreelyNamed op
allowed-FreelyNamed (deploy p) h = allowed-FreeSymbol p.symbol h
allowed-FreelyNamed (deploy_progressive p) h = allowed-FreeSymbol p.symbol h
allowed-FreelyNamed (deploy_progressive_v2 p) h = allowed-FreeSymbol p.symbol h
allowed-FreelyNamed (inscribe t c) h = omega arith
allowed-FreelyNamed (mint a k) h = omega arith
allowed-FreelyNamed (transfer a k t) h = omega arith
allowed-FreelyNamed (offer p) h = omega arith
allowed-FreelyNamed (fee_rate e v) h = omega arith
allowed-FreelyNamed (fee_admin p) h = omega arith
