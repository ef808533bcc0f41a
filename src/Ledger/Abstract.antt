-- ===== src/Ledger/Abstract.antt =====
-- The abstract ledger that the operations of packages/native/src/protocol.ts act on: balances and
-- sequences.
use qlyphs_wallet.Prelude.{
  ℕ, ◌+◌, some, List, ◌==◌, ◌≡◌, refl, subst, arith, true, false, Bool-cases, inl, inr,
  if◌then◌else◌, sym, ap, Result, ok, err,
}
use qlyphs_wallet.Prelude.Maps.{Pair, Entry, number_key, text_key, pair_key, get, set}
use qlyphs_wallet.Refusal.{Refusal}
use qlyphs_wallet.Operations.{HexId, Operation, mint, transfer, offer, inscribe}
use qlyphs_wallet.Wire.Bytes.{asset_id}
use qlyphs_wallet.Ledger.Data.{State, or_zero}
use qlyphs_wallet.Ledger.Change.{Delta, change, plus, minus}
use qlyphs_wallet.Prelude.Maps.{same_pair, same_pair-eq, get-set, get-set_other}
use qlyphs_wallet.Ledger.Data.{balance_of, balance_key}
use qlyphs_wallet.Ledger.Change.{moved}
use qlyphs_wallet.Ledger.Supply.{set_balance-ok}

-- The ledger that a reader of the chain sees: who holds how much of what, and the next sequence of every
-- account.
pub record TokenLedger : Type 0 where
  pub balance : HexId → HexId → ℕ
  pub sequence : HexId → ℕ

unfoldable pub view : State → TokenLedger
view s = record {
  balance = λ asset owner. balance_of s asset owner;
  sequence = λ owner. or_zero (get s.sequences owner);
}

-- An amount of one account, seen from another.
abbrev pub amount_at : HexId → HexId → ℕ → HexId → HexId → ℕ
amount_at asset owner n id who =
    if same_pair (balance_key asset owner) (balance_key id who) then n else 0

-- What an operation takes from an account.
abbrev pub debited : HexId → Operation → HexId → HexId → ℕ
debited owner (transfer asset n to) id who = amount_at asset owner n id who
debited owner (offer p) id who = amount_at p.asset owner p.amount id who
debited owner op id who = 0

-- One unit of a new inscription.
abbrev pub inscribed_at : HexId → Result Refusal HexId → HexId → HexId → ℕ
inscribed_at owner (err m) id who = 0
inscribed_at owner (ok asset) id who = amount_at asset owner 1 id who

-- What an operation gives to an account.
abbrev pub credited : HexId → ℕ → Operation → HexId → HexId → ℕ
credited owner sequence (mint asset n) id who = amount_at asset owner n id who
credited owner sequence (transfer asset n to) id who = amount_at asset to n id who
credited owner sequence (inscribe t c) id who = inscribed_at owner (asset_id owner sequence) id who
credited owner sequence op id who = 0

-- The step of the abstract ledger.
pub record Step (owner sequence : ℕ) (op : Operation) (l l' : TokenLedger) : Type 0 where
  pub in_turn : sequence ≡ l.sequence owner
  pub counted :
      (who : HexId) → l'.sequence who ≡ (if owner == who then sequence + 1 else l.sequence who)
  pub moves :
      (id who : HexId)
      → l'.balance id who + debited owner op id who
        ≡ l.balance id who + credited owner sequence op id who

abbrev into : Delta → ℕ
into (plus n) = n
into (minus n) = 0

abbrev out : Delta → ℕ
out (plus n) = 0
out (minus n) = n

moved-amounts : (held new : ℕ) (d : Delta) → moved held d ≡ some new → new + out d ≡ held + into d
moved-amounts held new (plus n) h = ground arith
moved-amounts held new (minus n) h = ground arith

amount_elsewhere :
    (asset owner n id who : ℕ)
    → same_pair (balance_key asset owner) (balance_key id who) ≡ false
    → amount_at asset owner n id who ≡ 0
amount_elsewhere asset owner n id who e = rw e refl

amount_there :
    (asset owner n id who : ℕ)
    → same_pair (balance_key asset owner) (balance_key id who) ≡ true
    → amount_at asset owner n id who ≡ n
amount_there asset owner n id who e = rw e refl

set_balance-moves :
    (m : List (Entry Pair ℕ)) (asset owner new : ℕ) (d : Delta) (id who : HexId)
    → moved (or_zero (get m (balance_key asset owner))) d ≡ some new
    → or_zero (get (set m (balance_key asset owner) new) (balance_key id who))
        + amount_at asset owner (out d) id who
      ≡ or_zero (get m (balance_key id who)) + amount_at asset owner (into d) id who
set_balance-moves m asset owner new d id who h =
    elim (Bool-cases (same_pair (balance_key asset owner) (balance_key id who))) [
      | inl e ↦
          subst
            (λ k.
              or_zero (get (set m (balance_key asset owner) new) k)
                + amount_at asset owner (out d) id who
              ≡ or_zero (get m k) + amount_at asset owner (into d) id who)
            (same_pair-eq (balance_key asset owner) (balance_key id who) e)
            (omega (
              arith,
              ap or_zero (get-set m (balance_key asset owner) new),
              moved-amounts (or_zero (get m (balance_key asset owner))) new d h,
              amount_there asset owner (out d) id who e,
              amount_there asset owner (into d) id who e,
            ))
      | inr e ↦ omega (
        arith,
        ap or_zero (get-set_other m (balance_key asset owner) new (balance_key id who) e),
        amount_elsewhere asset owner (out d) id who e,
        amount_elsewhere asset owner (into d) id who e,
      )
    ]

change-moves :
    (s : State) (asset owner : HexId) (d : Delta) (id who : HexId) {s' : State}
    → change s asset owner d ≡ ok s'
    → balance_of s' id who + amount_at asset owner (out d) id who
      ≡ balance_of s id who + amount_at asset owner (into d) id who
unfolding change
change-moves s asset owner d id who h =
    let found = set_balance-ok s asset owner (moved (balance_of s asset owner) d) h in
    subst
      (λ z.
        balance_of z id who + amount_at asset owner (out d) id who
        ≡ balance_of s id who + amount_at asset owner (into d) id who)
      (sym found.2) (set_balance-moves s.balances asset owner found.0 d id who found.1)

pub change-credit :
    (s : State) (asset owner n : ℕ) (id who : HexId) {s' : State}
    → change s asset owner (plus n) ≡ ok s'
    → balance_of s' id who ≡ balance_of s id who + amount_at asset owner n id who
change-credit s asset owner n id who h =
    omega (arith, change-moves s asset owner (plus n) id who h, nothing_at asset owner id who)
  where
    nothing_at : (asset owner id who : ℕ) → amount_at asset owner 0 id who ≡ 0
    nothing_at asset owner id who = ground arith

pub change-debit :
    (s : State) (asset owner n : ℕ) (id who : HexId) {s' : State}
    → change s asset owner (minus n) ≡ ok s'
    → balance_of s' id who + amount_at asset owner n id who ≡ balance_of s id who
change-debit s asset owner n id who h =
    omega (arith, change-moves s asset owner (minus n) id who h, nothing_at asset owner id who)
  where
    nothing_at : (asset owner id who : ℕ) → amount_at asset owner 0 id who ≡ 0
    nothing_at asset owner id who = ground arith
