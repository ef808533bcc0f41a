-- ===== src/Ledger/Change.antt =====
-- `change` and `release` of packages/native/src/protocol.ts.
use qlyphs_wallet.Prelude.{ℕ, ◌+◌, ◌-◌, Option, none, some, true, leb, Result, ok, err, ◌>>=◌}
use qlyphs_wallet.Prelude.Maps.{Pair, pair_key, set}
use qlyphs_wallet.Refusal.{Refusal, insufficient_tokens}
use qlyphs_wallet.Operations.{HexId}
use qlyphs_wallet.Ledger.Data.{
  State, Ticket, TicketStatus, locked, released, balance_of, balance_key,
}

-- The signed amount of a change.
pub data Delta : Type 0 where
  plus minus : ℕ → Delta

-- `n` where it is at least zero; `none` is a negative sum.
abbrev pub moved : ℕ → Delta → Option ℕ
moved held (plus n) = some (held + n)
moved held (minus n) = elim (leb n held) [ true ↦ some (held - n) | _ ↦ none ]

-- `requireThat(n >= 0n)` and the write of `n`.
abbrev pub set_balance : State → HexId → HexId → Option ℕ → Result Refusal State
set_balance s asset owner none = err insufficient_tokens
set_balance s asset owner (some n) =
    ok (record s { balances = set s.balances (balance_key asset owner) n })

unfoldable pub change : State → HexId → HexId → Delta → Result Refusal State
change s asset owner d = set_balance s asset owner (moved (balance_of s asset owner) d)

-- The ticket object under a key of the map with its new status.
abbrev pub with_status : State → Pair → Ticket → TicketStatus → Option HexId → State
with_status s k t status settlement = record s {
  tickets = set s.tickets k (record t { status = status; settlement = settlement });
}

-- `release` of the ticket under a key by its status: only a locked one has tokens to give back.
abbrev pub release_as : State → Pair → Ticket → TicketStatus → Result Refusal State
release_as s k t locked = change s t.offer.asset t.seller (plus t.offer.amount) >>= λ back.
    ok (with_status back k t released t.settlement)
release_as s k t _ = ok s

unfoldable pub release : State → Pair → Ticket → Result Refusal State
release s k t = release_as s k t t.status
