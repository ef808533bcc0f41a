-- ===== src/Progressive/Settlement.antt =====
-- The settlement of a lot in packages/native/src/progressive-mint.ts: the call that is written is the
-- call that is read.
use mathlib.Core.List.{append-nil}
use qlyphs_wallet.Prelude.{
  ℕ, some, List, [], ◌∷◌, ◌++◌, ◌≡◌, refl, ap, subst, ◌∙◌, ok, >>=-eq-ok, require_that-eq-ok,
  ok-inj, same_text, same_text_refl, same_text-eq,
}
use qlyphs_wallet.Refusal.{noncanonical_settlement}
use qlyphs_wallet.Operations.{HexId}
use qlyphs_wallet.Wire.Bytes.{uint, compact, id_bytes}
use qlyphs_wallet.Wire.Reading.{read_int-uint, read_end}
use qlyphs_wallet.Wire.Compact.{read_compact, read_compact-compact}
use qlyphs_wallet.Wire.Fields.{read_id-id_bytes}
use qlyphs_wallet.Progressive.Ticket.{
  MintTicket, Settlement, settlement_call, read_shape, read_payment, read_creation,
  parse_settlement, or_none, read_settlement,
}

read_shape-written :
    (rest : List ℕ) {calls signers : List ℕ}
    → compact 2 ≡ ok calls
    → compact 2 ≡ ok signers
    → read_shape (9 ∷ (2 ∷ (calls ++ (19 ∷ (0 ∷ (signers ++ rest)))))) ≡ ok rest
unfolding read_shape
read_shape-written rest hc hs = rw (read_compact-compact 2 _ hc, read_compact-compact 2 _ hs) refl

read_creation-written :
    (ticket : MintTicket) (rest : List ℕ) {first second threshold nonce : List ℕ}
    → id_bytes ticket.first 32 ≡ ok first
    → id_bytes ticket.second 32 ≡ ok second
    → uint 2 4 ≡ ok threshold
    → uint ticket.nonce 8 ≡ ok nonce
    → read_creation (first ++ (second ++ (threshold ++ (nonce ++ rest))))
      ≡ ok (record { value = ticket; rest = rest })
unfolding read_creation
read_creation-written ticket rest h1 h2 h3 h4 =
    rw
      (
        read_id-id_bytes ticket.first 32 _ h1,
        read_id-id_bytes ticket.second 32 _ h2,
        read_int-uint 2 4 _ h3,
        read_int-uint ticket.nonce 8 _ h4,
      )
      refl

read_payment-written :
    (to amount : ℕ) {account n : List ℕ}
    → id_bytes to 32 ≡ ok account
    → compact amount ≡ ok n
    → read_payment (2 ∷ (3 ∷ (0 ∷ (account ++ n))))
      ≡ ok (record { value = record { to = to; amount = amount }; rest = [] })
unfolding read_payment
read_payment-written to amount {account} {n} h1 h2 =
    let last : read_compact n ≡ ok (record { value = amount; rest = [] }) =
      subst (λ xs. read_compact xs ≡ ok (record { value = amount; rest = [] })) (append-nil n)
        (read_compact-compact amount [] h2) in
    rw (read_id-id_bytes to 32 n h1, last) refl

settlement_call-written :
    (ticket : MintTicket) (to : HexId) (amount : ℕ) {bs : List ℕ}
    → settlement_call ticket to amount ≡ ok bs
    → (signers : List ℕ) × (payment : List ℕ) × (read_shape bs ≡ ok signers)
      × (read_creation signers ≡ ok (record { value = ticket; rest = payment }))
      × (read_payment payment
          ≡ ok (record { value = record { to = to; amount = amount }; rest = [] }))
unfolding settlement_call
settlement_call-written ticket to amount {bs} h =
    let calls = >>=-eq-ok (compact 2) _ h in
    let signers = >>=-eq-ok (compact 2) _ calls.2 in
    let first = >>=-eq-ok (id_bytes ticket.first 32) _ signers.2 in
    let second = >>=-eq-ok (id_bytes ticket.second 32) _ first.2 in
    let threshold = >>=-eq-ok (uint 2 4) _ second.2 in
    let nonce = >>=-eq-ok (uint ticket.nonce 8) _ threshold.2 in
    let account = >>=-eq-ok (id_bytes to 32) _ nonce.2 in
    let n = >>=-eq-ok (compact amount) _ account.2 in
    let payment = 2 ∷ (3 ∷ (0 ∷ (account.0 ++ n.0))) in
    let creation = first.0 ++ (second.0 ++ (threshold.0 ++ (nonce.0 ++ payment))) in
    (
      creation,
      payment,
      subst (λ xs. read_shape xs ≡ ok creation) (ok-inj n.2)
          (read_shape-written creation calls.1 signers.1),
      read_creation-written ticket payment first.1 second.1 threshold.1 nonce.1,
      read_payment-written to amount account.1 n.1,
    )

parse_settlement-settlement_call :
    (ticket : MintTicket) (to : HexId) (amount : ℕ) {bs : List ℕ}
    → settlement_call ticket to amount ≡ ok bs
    → parse_settlement bs ≡ ok (record { ticket = ticket; to = to; amount = amount })
unfolding parse_settlement
parse_settlement-settlement_call ticket to amount {bs} h =
    let read = settlement_call-written ticket to amount h in
    rw (read.2, read.3, read.4, h, same_text_refl bs) refl

-- The settlement of a lot is read back from its call: for every ticket, recipient and amount whose call
-- can be written, reading the call gives the ticket, the recipient and the amount.
pub read_settlement-settlement_call :
    (ticket : MintTicket) (to : HexId) (amount : ℕ) {bs : List ℕ}
    → settlement_call ticket to amount ≡ ok bs
    → read_settlement bs ≡ some (record { ticket = ticket; to = to; amount = amount })
unfolding read_settlement
read_settlement-settlement_call ticket to amount h =
    ap or_none (parse_settlement-settlement_call ticket to amount h)

-- Bytes that are read as a settlement are the bytes of its call, and so no other bytes are read as that
-- settlement.
pub settlement_call-read_settlement :
    (bs : List ℕ) {x : Settlement}
    → parse_settlement bs ≡ ok x
    → settlement_call x.ticket x.to x.amount ≡ ok bs
unfolding parse_settlement
settlement_call-read_settlement bs h =
    let signers = >>=-eq-ok (read_shape bs) _ h in
    let ticket = >>=-eq-ok (read_creation signers.0) _ signers.2 in
    let payout = >>=-eq-ok (read_payment ticket.0.rest) _ ticket.2 in
    let end = >>=-eq-ok (read_end payout.0.rest) _ payout.2 in
    let written =
      >>=-eq-ok (settlement_call ticket.0.value payout.0.value.to payout.0.value.amount) _ end.2 in
    let same = require_that-eq-ok (same_text written.0 bs) noncanonical_settlement _ written.2 in
    subst (λ x. settlement_call x.ticket x.to x.amount ≡ ok bs) (ok-inj same.1)
      (written.1 ∙ ap ok (same_text-eq written.0 bs same.0))
