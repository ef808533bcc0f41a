-- ===== src/Payer/Laws.antt =====
-- What an accepted check of packages/native/src/balance.ts guarantees.
use qlyphs_wallet.Prelude.{
  ℕ, ◌+◌, ◌≤◌, ◌<◌, Option, none, some, leb, if◌then◌else◌, Result, ok, err, ◌≡◌, refl, arith,
}
use qlyphs_wallet.Payer.Balance.{
  Funds, PayerBalance, PayerCosts, settled_with, settled_funds, spendable_of, payer_spendable,
  check_send_balance, total_fees, unconfirmed, FundsError, send_locked_error,
}

settled_least :
    (b : PayerBalance) (o : Option Funds)
    → ((settled_with b o).free ≤ b.free) × (b.frozen ≤ (settled_with b o).frozen)
settled_least b none = (omega arith, omega arith)
settled_least b (some f) = (ground arith, ground arith)

spendable_kept :
    (f : Funds) (minimum needed : ℕ)
    → 0 < needed
    → needed ≤ spendable_of f minimum
    → (needed + f.frozen ≤ f.free) × (needed + minimum ≤ f.free)
spendable_kept f minimum needed h0 h = (ground arith, ground arith)

passed_test :
    (n m k : ℕ) (e f : FundsError)
    → ◌≡◌ {A = Result FundsError (Unit {0})}
        (if leb n m then ok tt else if leb n k then err f else err e)
        (ok tt)
    → n ≤ m
passed_test n m k e f h = ground arith

passed :
    (b : PayerBalance) (costs : PayerCosts) (amount : ℕ) (e : FundsError)
    → check_send_balance b costs amount e ≡ ok tt
    → amount + total_fees costs ≤ payer_spendable b costs.existential_deposit
unfolding check_send_balance
passed b costs amount e h =
    passed_test (amount + total_fees costs) (payer_spendable b costs.existential_deposit)
      (payer_spendable (unconfirmed b) costs.existential_deposit) e send_locked_error h

-- An amount can leave the final balance with both frozen amounts and the deposit kept.
abbrev pub KeptIn : PayerBalance → ℕ → ℕ → Option Funds → Type 0
KeptIn b needed deposit none = b.finalized ≡ none
KeptIn b needed deposit (some f) =
    (needed + f.frozen ≤ f.free)
    × (needed + b.frozen ≤ f.free)
    × (needed + f.frozen ≤ b.free)
    × (needed + deposit ≤ f.free)

settled-KeptIn :
    (b : PayerBalance) (needed deposit : ℕ) (o : Option Funds)
    → b.finalized ≡ o
    → needed + (settled_with b o).frozen ≤ (settled_with b o).free
    → needed + deposit ≤ (settled_with b o).free
    → KeptIn b needed deposit o
settled-KeptIn b needed deposit none e h1 h2 = e
settled-KeptIn b needed deposit (some f) e h1 h2 =
    (ground arith, ground arith, ground arith, ground arith)

-- A payment whose check passes, and that costs anything, leaves the account at least its frozen
-- amount and its existential deposit after the amount and all fees, in its newest balance. Where the
-- balance of the last final block is known, it is enough for the same: for the amount, all fees and
-- what was frozen then or is frozen now, and for the amount, all fees and the existential deposit; and
-- the newest balance also covers what was frozen then.
pub check_send_balance_kept :
    (b : PayerBalance) (costs : PayerCosts) (amount : ℕ) (e : FundsError)
    → 0 < amount + total_fees costs
    → check_send_balance b costs amount e ≡ ok tt
    → (amount + total_fees costs + b.frozen ≤ b.free)
      × (amount + total_fees costs + costs.existential_deposit ≤ b.free)
      × KeptIn b (amount + total_fees costs) costs.existential_deposit b.finalized
unfolding check_send_balance payer_spendable settled_funds
check_send_balance_kept b costs amount e h0 h =
    let bound : amount + total_fees costs ≤ payer_spendable b costs.existential_deposit =
      passed b costs amount e h in
    let kept =
      spendable_kept (settled_with b b.finalized) costs.existential_deposit
        (amount + total_fees costs) h0 bound in
    let least = settled_least b b.finalized in
    (
      omega (arith, kept.0, least.0, least.1),
      omega (arith, kept.1, least.0),
      settled-KeptIn b (amount + total_fees costs) costs.existential_deposit b.finalized refl kept.0
          kept.1,
    )
