-- ===== src/Ledger/Paid.antt =====
-- The fee of an accepted operation of packages/native/src/protocol.ts.
use qlyphs_wallet.Prelude.{
  ℕ, Option, none, some, true, ◌&&◌, List, [], ◌∷◌, any_of, ◌==◌, ◌≡◌, refl, sym, ap, subst, ==→eq,
  &&-true, ok, >>=-eq-ok, require_that-eq-ok, require_that-ok,
}
use qlyphs_wallet.Refusal.{requires_fee_batch, no_fee_receipt, fee_mismatch}
use qlyphs_wallet.Operations.{
  HexId, qlyphs_fee_account, Operation, deploy, mint, transfer, offer, inscribe, deploy_progressive,
  deploy_progressive_v2, fee_rate, fee_admin,
}
use qlyphs_wallet.Fees.Rate.{is_fee_bearing, is_rate_derived, legacy_fee, fee}
use qlyphs_wallet.Fees.State.{FeeRules, FeeState, FeeMode, legacy, schedule, inactive, allowed_fees}
use qlyphs_wallet.Wire.Calls.{Call}
use qlyphs_wallet.Ledger.Data.{State, Receipt}
use qlyphs_wallet.Ledger.Context.{
  FeeContext, mode_of, mint_fee, batch_receipt, remark_senders, Payment, payments, completions,
  only_sender, only_payment, paid_by, is_batch, exact_batch, require_exact_fee, leg_amount,
  symbol_allowed, scheduled_fee, require_rate_fee, require_context,
}
use qlyphs_wallet.Ledger.Due.{
  Due, due_for_mint, due_before, due_by_schedule, old_fee_lem, allowed-RateDue, allowed-FreelyNamed,
}

-- The signer has paid a due amount to the Qlyphs fee account: it is the one payment of the receipt, the
-- signer's remark is its one remark, and one batch was completed.
pub record PaidFee (r : Receipt) (ctx : FeeContext) (op : Operation) : Type 0 where
  pub owner : HexId
  pub amount : ℕ
  pub signed : r.signer ≡ some owner
  pub remarked : remark_senders r.events ≡ owner ∷ []
  pub paid :
      payments r.events ≡ record { payer = owner; to = qlyphs_fee_account; amount = amount } ∷ []
  pub completed : completions r.events ≡ 1
  pub due : Due ctx op amount

only_sender-eq : (xs : List HexId) (from : HexId) → only_sender xs from ≡ true → xs ≡ from ∷ []
only_sender-eq [] from h = cc
only_sender-eq (x ∷ []) from h = ap (λ y. y ∷ []) (==→eq x from h)
only_sender-eq (x ∷ y ∷ xs) from h = cc

only_payment-eq :
    (ps : List Payment) (from to amount : ℕ)
    → only_payment ps from to amount ≡ true
    → ps ≡ record { payer = from; to = to; amount = amount } ∷ []
only_payment-eq [] from to amount h = cc
only_payment-eq (p ∷ []) from to amount h =
    let one = &&-true (p.payer == from && p.to == to) (p.amount == amount) h in
    let two = &&-true (p.payer == from) (p.to == to) one.0 in
    same p (==→eq p.payer from two.0) (==→eq p.to to two.1) (==→eq p.amount amount one.1)
  where
    same :
        (p : Payment)
        → p.payer ≡ from
        → p.to ≡ to
        → p.amount ≡ amount
        → p ∷ [] ≡ record { payer = from; to = to; amount = amount } ∷ []
    same p e1 e2 e3 = rw (sym e1, sym e2, sym e3) refl
only_payment-eq (p ∷ q ∷ ps) from to amount h = cc

shown-PaidFee :
    (r : Receipt) (ctx : FeeContext) (op : Operation) (owner : HexId) (fee : ℕ)
    → r.signer ≡ some owner
    → batch_receipt r owner qlyphs_fee_account fee ≡ true
    → Due ctx op fee
    → PaidFee r ctx op
unfolding batch_receipt
shown-PaidFee r ctx op owner fee e h due =
    let sent = only_sender (remark_senders r.events) owner in
    let pays = only_payment (payments r.events) owner qlyphs_fee_account fee in
    let one = &&-true (sent && pays) (completions r.events == 1) h in
    let two = &&-true sent pays one.0 in
    record {
      owner = owner;
      amount = fee;
      signed = e;
      remarked = only_sender-eq (remark_senders r.events) owner two.0;
      paid = only_payment-eq (payments r.events) owner qlyphs_fee_account fee two.1;
      completed = ==→eq (completions r.events) 1 one.1;
      due = due;
    }

paid_by-PaidFee :
    (r : Receipt) (ctx : FeeContext) (op : Operation) (signer : Option HexId) (fee : ℕ)
    → r.signer ≡ signer
    → paid_by r signer fee ≡ true
    → Due ctx op fee
    → PaidFee r ctx op
paid_by-PaidFee r ctx op none fee e h due = cc
paid_by-PaidFee r ctx op (some owner) fee e h due = shown-PaidFee r ctx op owner fee e h due

require_exact_fee-PaidFee :
    (r : Receipt) (ctx : FeeContext) (op : Operation) (call : Call) (payload : List ℕ) (fee : ℕ)
    {done : Unit {0}}
    → Due ctx op fee
    → require_exact_fee r call payload fee ≡ ok done
    → PaidFee r ctx op
unfolding require_exact_fee
require_exact_fee-PaidFee r ctx op call payload fee due h =
    let one = require_that-eq-ok (is_batch call) requires_fee_batch _ h in
    let two = >>=-eq-ok (exact_batch call payload fee) _ one.1 in
    paid_by-PaidFee r ctx op r.signer fee refl
      (require_that-ok (paid_by r r.signer fee) no_fee_receipt two.2) due

scheduled_fee-PaidFee :
    (r : Receipt) (ctx : FeeContext) (op : Operation) (rules : Option FeeRules)
    (fees : Option FeeState) (fee : ℕ) {done : Unit {0}}
    → mode_of ctx ≡ schedule
    → ctx.rules.fee_schedule ≡ rules
    → ctx.fees ≡ fees
    → scheduled_fee r op ctx.height schedule rules fees fee ≡ ok done
    → PaidFee r ctx op
scheduled_fee-PaidFee r ctx op none fees fee mode er ef h = cc
scheduled_fee-PaidFee r ctx op (some rules) none fee mode er ef h = cc
scheduled_fee-PaidFee r ctx op (some rules) (some fees) fee mode er ef h =
    let symbol = >>=-eq-ok (symbol_allowed op) _ h in
    let amounts = >>=-eq-ok (allowed_fees fees rules op ctx.height) _ symbol.2 in
    let among = require_that-eq-ok (any_of (λ m. m == fee) amounts.0) fee_mismatch _ amounts.2 in
    paid_by-PaidFee r ctx op r.signer fee refl
      (require_that-ok (paid_by r r.signer fee) no_fee_receipt among.1)
      (due_by_schedule op fee rules fees mode er ef (allowed-FreelyNamed op symbol.1)
        (allowed-RateDue fees rules op ctx.height fee amounts.1 among.0))

require_rate_fee-PaidFee :
    (r : Receipt) (ctx : FeeContext) (op : Operation) (call : Call) (payload : List ℕ)
    (mode : FeeMode) {done : Unit {0}}
    → mode_of ctx ≡ mode
    → require_rate_fee r op call payload ctx mode ≡ ok done
    → PaidFee r ctx op
unfolding require_rate_fee
require_rate_fee-PaidFee r ctx op call payload legacy e h =
    let fee = >>=-eq-ok (legacy_fee op) _ h in
    require_exact_fee-PaidFee r ctx op call payload fee.0
      (subst (Due ctx op) (sym (old_fee_lem op fee.1)) (due_before op e)) fee.2
require_rate_fee-PaidFee r ctx op call payload schedule e h =
    let one = require_that-eq-ok (is_batch call) requires_fee_batch _ h in
    let amount = >>=-eq-ok (leg_amount call) _ one.1 in
    let two = >>=-eq-ok (exact_batch call payload amount.0) _ amount.2 in
    scheduled_fee-PaidFee r ctx op ctx.rules.fee_schedule ctx.fees amount.0 e refl refl two.2
require_rate_fee-PaidFee r ctx op call payload inactive e h =
    let one = require_that-eq-ok (is_batch call) requires_fee_batch _ h in
    let amount = >>=-eq-ok (leg_amount call) _ one.1 in
    let two = >>=-eq-ok (exact_batch call payload amount.0) _ amount.2 in let refused = two.2 in cc

pub require_context-PaidFee :
    (r : Receipt) (ctx : FeeContext) (op : Operation) (call : Call) (payload : List ℕ)
    {done : Unit {0}}
    → is_fee_bearing op ≡ true
    → require_context r op call payload ctx ≡ ok done
    → PaidFee r ctx op
unfolding require_context is_fee_bearing is_rate_derived
require_context-PaidFee r ctx (mint asset amount) call payload bears h =
    require_exact_fee-PaidFee r ctx (mint asset amount) call payload mint_fee
      (due_for_mint asset amount) h
require_context-PaidFee r ctx (deploy p) call payload bears h =
    require_rate_fee-PaidFee r ctx (deploy p) call payload (mode_of ctx) refl h
require_context-PaidFee r ctx (deploy_progressive p) call payload bears h =
    require_rate_fee-PaidFee r ctx (deploy_progressive p) call payload (mode_of ctx) refl h
require_context-PaidFee r ctx (deploy_progressive_v2 p) call payload bears h =
    require_rate_fee-PaidFee r ctx (deploy_progressive_v2 p) call payload (mode_of ctx) refl h
require_context-PaidFee r ctx (inscribe t c) call payload bears h =
    require_rate_fee-PaidFee r ctx (inscribe t c) call payload (mode_of ctx) refl h
require_context-PaidFee r ctx (fee_rate e v) call payload bears h = cc
require_context-PaidFee r ctx (fee_admin p) call payload bears h = cc
require_context-PaidFee r ctx (transfer asset amount to) call payload bears h = cc
require_context-PaidFee r ctx (offer p) call payload bears h = cc
