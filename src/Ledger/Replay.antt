-- ===== src/Ledger/Replay.antt =====
-- Sequences and the sale fee of packages/native/src/protocol.ts.
use qlyphs_wallet.Prelude.{
  ℕ, ◌+◌, ◌*◌, ◌≤◌, Option, none, some, true, not, ◌&&◌, ◌==◌, ltb, ◌≡◌, refl, sym, subst, ◌∙◌,
  arith, ok, err, >>=-eq-ok, require_that-eq-ok, ok-inj, &&-true, ==→eq, ==-ne,
}
use qlyphs_wallet.Prelude.Maps.{get, get-set, number_key}
use qlyphs_wallet.Refusal.{wrong_byte_length, zero_sender, wrong_genesis, wrong_sequence}
use qlyphs_wallet.Operations.{Envelope, zero_id, max_u64}
use qlyphs_wallet.Fees.State.{is_id}
use qlyphs_wallet.Wire.Calls.{Call}
use qlyphs_wallet.Ledger.Data.{State, Receipt, Rules, or_zero, sale_fee}
use qlyphs_wallet.Ledger.Apply.{apply_kind, apply_as, apply_operation}

-- What an applied operation says about its signer and its sequence.
applied_as :
    (s : State) (genesis : ℕ) (r : Receipt) (e : Envelope) (call : Call) (rules : Rules)
    (signer : Option ℕ) {s' : State}
    → apply_as s genesis r e call rules signer ≡ ok s'
    → (owner : ℕ) × (signer ≡ some owner)
      × (is_id owner ≡ true)
      × (not (owner == zero_id) ≡ true)
      × ((e.genesis == genesis) ≡ true)
      × (e.sequence ≡ or_zero (get s.sequences owner))
      × (get s'.sequences owner ≡ some (e.sequence + 1))
applied_as s genesis r e call rules none h = cc
applied_as s genesis r e call rules (some owner) h =
    let zeroth = require_that-eq-ok (is_id owner) wrong_byte_length _ h in
    let one = require_that-eq-ok (not (owner == zero_id)) zero_sender _ zeroth.1 in
    let two = require_that-eq-ok (e.genesis == genesis) wrong_genesis _ one.1 in
    let three =
      require_that-eq-ok (e.sequence == or_zero (get s.sequences owner) && ltb e.sequence max_u64)
        wrong_sequence _ two.1 in
    let next = >>=-eq-ok (apply_kind s r owner e.sequence e.op call rules) _ three.1 in
    (
      owner,
      refl,
      zeroth.0,
      one.0,
      two.0,
      ==→eq e.sequence (or_zero (get s.sequences owner))
          (&&-true (e.sequence == or_zero (get s.sequences owner)) (ltb e.sequence max_u64)
            three.0).0,
      subst (λ z. get z.sequences owner ≡ some (e.sequence + 1)) (ok-inj next.2)
          (get-set next.0.sequences owner (e.sequence + 1)),
    )

refused_as :
    (s : State) (genesis : ℕ) (r : Receipt) (e : Envelope) (call : Call) (rules : Rules) (owner : ℕ)
    → is_id owner ≡ true
    → not (owner == zero_id) ≡ true
    → (e.genesis == genesis) ≡ true
    → get s.sequences owner ≡ some (e.sequence + 1)
    → apply_as s genesis r e call rules (some owner) ≡ err wrong_sequence
refused_as s genesis r e call rules owner h0 h1 h2 h3 =
    rw (h0, h1, h2, h3, ==-ne e.sequence (e.sequence + 1) (omega arith))

-- Once an operation is applied, the same signed envelope is refused in the state that follows with a
-- wrong sequence, whatever receipt of that signer, call and rules it is replayed with.
pub replay_refused :
    (s : State) (genesis : ℕ) (r again : Receipt) (e : Envelope) (call call' : Call)
    (rules rules' : Rules) {s' : State}
    → apply_operation s genesis r e call rules ≡ ok s'
    → again.signer ≡ r.signer
    → apply_operation s' genesis again e call' rules' ≡ err wrong_sequence
unfolding apply_operation
replay_refused s genesis r again e call call' rules rules' {s'} h same_signer =
    let was = applied_as s genesis r e call rules r.signer h in
    subst (λ signer. apply_as s' genesis again e call' rules' signer ≡ err wrong_sequence)
      (sym (same_signer ∙ was.1))
      (refused_as s' genesis again e call' rules' was.0 was.2 was.3 was.4 was.6)

-- The sale fee is one percent of the price rounded up: the least amount whose hundredfold reaches the
-- price.
pub sale_fee_least :
    (price n : ℕ) → (price ≤ 100 * sale_fee price) × (price ≤ 100 * n → sale_fee price ≤ n)
sale_fee_least price n = (omega arith, λ h. omega arith)
