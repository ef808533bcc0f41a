-- ===== src/Ledger/Supply.antt =====
-- The supply of an asset in a state of packages/native/src/protocol.ts: what accounts hold and what
-- open tickets lock, against what was minted.
use qlyphs_wallet.Prelude.{
  ℕ, ◌+◌, ◌≤◌, Option, none, some, Bool, true, false, List, ◌==◌, if◌then◌else◌, ◌≡◌, refl, sym,
  subst, arith, Bool-cases, inl, inr, ok, ==-refl, ==→eq,
}
use qlyphs_wallet.Prelude.Maps.{
  Pair, Entry, pair_key, number_key, get, set, sum_of, part_of, sum_of-set, get-set, get-set_other,
}
use qlyphs_wallet.Operations.{HexId}
use qlyphs_wallet.Ledger.Data.{
  State, Asset, Ticket, TicketStatus, locked, balance_of, balance_key, or_zero,
}
use qlyphs_wallet.Ledger.Change.{change, Delta, plus, minus, moved, set_balance}

abbrev pub share : HexId → Pair → ℕ → ℕ
share id k amount = if k.left == id then amount else 0

abbrev pub is_locked : TicketStatus → Bool
is_locked locked = true
is_locked _ = false

abbrev pub locked_amount : Ticket → ℕ
locked_amount t = if is_locked t.status then t.offer.amount else 0

abbrev pub locked_share : HexId → Pair → Ticket → ℕ
locked_share id k t = if t.offer.asset == id then locked_amount t else 0

unfoldable pub held : State → HexId → ℕ
held s id = sum_of (share id) s.balances

unfoldable pub locked_in : State → HexId → ℕ
locked_in s id = sum_of (locked_share id) s.tickets

abbrev pub minted_amount : Option Asset → ℕ
minted_amount none = 0
minted_amount (some a) = a.minted

unfoldable pub minted_of : State → HexId → ℕ
minted_of s id = minted_amount (get s.assets id)

abbrev pub WithinCap : Option Asset → Type 0
WithinCap none = 0 ≤ 0
WithinCap (some a) = a.minted ≤ a.definition.cap

-- The supply of every asset is conserved and within its cap.
pub record Sound (s : State) : Type 0 where
  pub conserved : (id : HexId) → held s id + locked_in s id ≡ minted_of s id
  pub capped : (id : HexId) → WithinCap (get s.assets id)

abbrev pub added : Delta → HexId → HexId → ℕ
added (plus n) asset id = if asset == id then n else 0
added (minus n) asset id = 0

abbrev pub removed : Delta → HexId → HexId → ℕ
removed (plus n) asset id = 0
removed (minus n) asset id = if asset == id then n else 0

share_part :
    (id : HexId) (k : Pair) (o : Option ℕ) → part_of (share id) k o ≡ share id k (or_zero o)
share_part id k none = ground arith
share_part id k (some n) = refl

moved-share :
    (id asset owner n : ℕ) (o : Option ℕ) (d : Delta)
    → moved (or_zero o) d ≡ some n
    → share id (balance_key asset owner) n + removed d asset id
      ≡ share id (balance_key asset owner) (or_zero o) + added d asset id
moved-share id asset owner n o (plus m) h = ground arith
moved-share id asset owner n o (minus m) h = ground arith

pub set_balance-ok :
    (s : State) (asset owner : HexId) (o : Option ℕ) {s' : State}
    → set_balance s asset owner o ≡ ok s'
    → (n : ℕ) × (o ≡ some n)
      × (s' ≡ record s { balances = set s.balances (balance_key asset owner) n })
set_balance-ok s asset owner none h = cc
set_balance-ok s asset owner (some n) {s'} h = (n, refl, cc)

-- A change moves exactly its amount into or out of the asset's holdings, and touches nothing else.
pub change_lem :
    (s : State) (asset owner : HexId) (d : Delta) {s' : State}
    → change s asset owner d ≡ ok s'
    → (b : List (Entry Pair ℕ)) × (s' ≡ record s { balances = b })
      × ((id : HexId)
          → sum_of (share id) b + removed d asset id
            ≡ sum_of (share id) s.balances + added d asset id)
unfolding change
change_lem s asset owner d {s'} h =
    let found = set_balance-ok s asset owner (moved (balance_of s asset owner) d) h in
    (
      set s.balances (balance_key asset owner) found.0,
      found.2,
      λ id. omega (
        arith,
        sum_of-set (share id) s.balances (balance_key asset owner) found.0,
        share_part id (balance_key asset owner) (get s.balances (balance_key asset owner)),
        moved-share id asset owner found.0 (get s.balances (balance_key asset owner)) d found.1,
      ),
    )

pub minted_part :
    (m : List (Entry HexId Asset)) (k id : HexId) (a : Asset)
    → minted_amount (get (set m k a) id) ≡ (if k == id then a.minted else minted_amount (get m id))
minted_part m k id a = elim (Bool-cases (k == id)) [
  | inl h ↦
      subst
        (λ x.
          minted_amount (get (set m k a) x)
          ≡ (if k == x then a.minted else minted_amount (get m x)))
        (==→eq k id h) (rw (get-set m k a, ==-refl k))
  | inr h ↦ rw (get-set_other m k a id h, h)
]

pub within_part :
    (m : List (Entry HexId Asset)) (k id : HexId) (a : Asset)
    → a.minted ≤ a.definition.cap
    → WithinCap (get m id)
    → WithinCap (get (set m k a) id)
within_part m k id a ha hm = elim (Bool-cases (k == id)) [
  | inl h ↦
      subst (λ x. WithinCap (get (set m k a) x)) (==→eq k id h)
        (subst WithinCap (sym (get-set m k a)) ha)
  | inr h ↦ subst WithinCap (sym (get-set_other m k a id h)) hm
]

-- The sum of an asset's open tickets after one of them was written.
pub locked_part :
    (m : List (Entry Pair Ticket)) (k : Pair) (t : Ticket) (id : HexId)
    → sum_of (locked_share id) (set m k t) + part_of (locked_share id) k (get m k)
      ≡ sum_of (locked_share id) m + locked_share id k t
locked_part m k t id = sum_of-set (locked_share id) m k t
