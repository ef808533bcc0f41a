-- ===== src/Ledger/Refinement.antt =====
-- The operations of packages/native/src/protocol.ts refine the steps of the abstract ledger.
use qlyphs_wallet.Prelude.{
  ℕ, ◌+◌, Option, none, some, not, List, leb, ltb, ◌==◌, ◌&&◌, ◌||◌, ◌≡◌, refl, subst, arith,
  Bool-cases, ==→eq, ==-refl, &&-true, inl, inr, if◌then◌else◌, sym, ap, ◌∙◌, Result, ok, >>=-eq-ok,
  require_that-eq-ok, ok-inj,
}
use qlyphs_wallet.Prelude.Maps.{Entry, number_key, text_key, pair_key, get, set}
use qlyphs_wallet.Refusal.{
  Refusal, wrong_byte_length, zero_sender, wrong_genesis, wrong_sequence,
  inscriptions_cannot_be_minted, progressive_mints_by_right, issuer_only, mint_cap_limit,
  inscription_amount, zero_recipient, inscription_counter, asset_already_exists, symbol_taken,
}
use qlyphs_wallet.Operations.{
  HexId, zero_id, max_u64, Operation, Envelope, Offer, deploy, mint, transfer, offer, inscribe,
  deploy_progressive, deploy_progressive_v2, fee_rate, fee_admin,
}
use qlyphs_wallet.Fees.State.{max_safe, FeeRules, FeeState, is_id}
use qlyphs_wallet.Progressive.Quote.{v1, v2, progressive_mint_quote}
use qlyphs_wallet.Wire.Bytes.{asset_id}
use qlyphs_wallet.Wire.Calls.{Call, call_bytes}
use qlyphs_wallet.Ledger.Data.{
  State, Asset, progressive_profile, first_inscription, AssetDefinition, MintRight, Receipt, Rules,
  or_zero,
}
use qlyphs_wallet.Ledger.Change.{Delta, change, plus, minus}
use qlyphs_wallet.Ledger.Offers.{proposal_of, check_offer, absent, lock_offer}
use qlyphs_wallet.Ledger.Apply.{
  govern_with, known_asset, apply_as, is_inscription, is_open, whole_inscription, deploy_asset,
  mint_asset, transfer_asset, inscribe_asset, deploy_lots, apply_kind, apply_operation,
}
use qlyphs_wallet.Ledger.Supply.{change_lem}
use qlyphs_wallet.Prelude.Maps.{get-set, get-set_other}
use qlyphs_wallet.Ledger.Data.{balance_of, balance_key}
use qlyphs_wallet.Ledger.Abstract.{
  view, Step, debited, credited, inscribed_at, change-credit, change-debit,
}

-- The effect of a kind of operation on balances, before its sequence is counted.
record Moved (s s' : State) (owner sequence : ℕ) (op : Operation) : Type 0 where
  sequences : s'.sequences ≡ s.sequences
  moves :
      (id who : HexId)
      → balance_of s' id who + debited owner op id who
        ≡ balance_of s id who + credited owner sequence op id who

change-sequences :
    (s : State) (asset owner : HexId) (d : Delta) {s' : State}
    → change s asset owner d ≡ ok s'
    → s'.sequences ≡ s.sequences
change-sequences s asset owner d h = ap (λ z. z.sequences) (change_lem s asset owner d h).1

-- An operation that moves nothing.
still :
    (s s' : State) (owner sequence : ℕ) (op : Operation)
    → s'.sequences ≡ s.sequences
    → s'.balances ≡ s.balances
    → ((id who : HexId) → debited owner op id who ≡ 0)
    → ((id who : HexId) → credited owner sequence op id who ≡ 0)
    → Moved s s' owner sequence op
still s s' owner sequence op es eb out_zero into_zero = record {
  sequences = es;
  moves = λ id who.
      omega (
        arith,
        ap (λ m. or_zero (get m (balance_key id who))) eb,
        out_zero id who,
        into_zero id who,
      );
}

deploy_asset_still :
    (s : State) (owner sequence : ℕ) (d : AssetDefinition) (right : MintRight) {s' : State}
    → deploy_asset s owner sequence d right ≡ ok s'
    → (s'.sequences ≡ s.sequences) × (s'.balances ≡ s.balances)
unfolding deploy_asset
deploy_asset_still s owner sequence d right h =
    let found = >>=-eq-ok (asset_id owner sequence) _ h in
    let fresh = require_that-eq-ok (absent (get s.assets found.0)) asset_already_exists _ found.2 in
    let free = require_that-eq-ok (absent (get s.symbols d.symbol)) symbol_taken _ fresh.1 in
    (sym (ap (λ z. z.sequences) (ok-inj free.1)), sym (ap (λ z. z.balances) (ok-inj free.1)))

govern_still :
    (s : State) (act : FeeRules → FeeState → Result Refusal FeeState) (f : Option FeeState)
    (schedule : Option FeeRules) {s' : State}
    → govern_with s act f schedule ≡ ok s'
    → (s'.sequences ≡ s.sequences) × (s'.balances ≡ s.balances)
govern_still s act none schedule h = cc
govern_still s act (some f) none h = cc
govern_still s act (some f) (some schedule) h =
    let next = >>=-eq-ok (act schedule f) _ h in
    (sym (ap (λ z. z.sequences) (ok-inj next.2)), sym (ap (λ z. z.balances) (ok-inj next.2)))

mint_asset-Moved :
    (s : State) (owner sequence asset : ℕ) (a : Asset) (amount : ℕ) {s' : State}
    → mint_asset s owner asset a amount ≡ ok s'
    → Moved s s' owner sequence (mint asset amount)
unfolding mint_asset
mint_asset-Moved s owner sequence asset a amount h =
    let one =
      require_that-eq-ok (not (is_inscription a.definition.policy)) inscriptions_cannot_be_minted _
        h in
    let two =
      require_that-eq-ok (absent (progressive_profile a.definition.policy))
        progressive_mints_by_right _ one.1 in
    let three =
      require_that-eq-ok (is_open a.definition.policy || a.creator == owner) issuer_only _ two.1 in
    let four =
      require_that-eq-ok (leb amount a.definition.limit && leb (a.minted + amount) a.definition.cap)
        mint_cap_limit _ three.1 in
    record {
      sequences = change-sequences _ asset owner (plus amount) four.1;
      moves = λ id who. omega (arith, change-credit _ asset owner amount id who four.1);
    }

transfer_asset-Moved :
    (s : State) (owner sequence asset : ℕ) (a : Asset) (amount to : ℕ) {s' : State}
    → transfer_asset s owner asset a amount to ≡ ok s'
    → Moved s s' owner sequence (transfer asset amount to)
unfolding transfer_asset
transfer_asset-Moved s owner sequence asset a amount to h =
    let one = require_that-eq-ok (whole_inscription a amount) inscription_amount _ h in
    let two = require_that-eq-ok (not (to == zero_id)) zero_recipient _ one.1 in
    let sent = >>=-eq-ok (change s asset owner (minus amount)) _ two.1 in
    record {
      sequences =
          change-sequences sent.0 asset to (plus amount) sent.2
          ∙ change-sequences s asset owner (minus amount) sent.1;
      moves = λ id who. omega (
        arith,
        change-debit s asset owner amount id who sent.1,
        change-credit sent.0 asset to amount id who sent.2,
      );
    }

inscribe_asset-Moved :
    (s : State) (r : Receipt) (owner sequence : ℕ) (t c : List ℕ) {s' : State}
    → inscribe_asset s r owner sequence t c ≡ ok s'
    → Moved s s' owner sequence (inscribe t c)
unfolding inscribe_asset
inscribe_asset-Moved s r owner sequence t c {s'} h =
    let found = >>=-eq-ok (asset_id owner sequence) _ h in
    let fresh = require_that-eq-ok (absent (get s.assets found.0)) asset_already_exists _ found.2 in
    let counted =
      require_that-eq-ok
        (leb s.next_inscription max_safe && leb first_inscription s.next_inscription)
        inscription_counter _ fresh.1 in
    let given = >>=-eq-ok (change _ found.0 owner (plus 1)) _ counted.1 in
    subst (λ z. Moved s z owner sequence (inscribe t c)) (ok-inj given.2)
      (record {
        sequences = change-sequences _ found.0 owner (plus 1) given.1;
        moves = λ id who. omega (
          arith,
          change-credit _ found.0 owner 1 id who given.1,
          ap (λ a. inscribed_at owner a id who) found.1,
        );
      })

lock_offer-Moved :
    (s : State) (r : Receipt) (owner sequence : ℕ) (p : Offer) (c : Call) {s' : State}
    → lock_offer s r owner p c ≡ ok s'
    → Moved s s' owner sequence (offer p)
unfolding lock_offer
lock_offer-Moved s r owner sequence p c h =
    let call = >>=-eq-ok (proposal_of c) _ h in
    let number = >>=-eq-ok (check_offer s r owner p call.0) _ call.2 in
    let paid = >>=-eq-ok (change s p.asset owner (minus p.amount)) _ number.2 in
    let bytes = >>=-eq-ok (call_bytes call.0.call) _ paid.2 in
    subst (λ z. Moved s z owner sequence (offer p)) (ok-inj bytes.2)
      (record {
        sequences = change-sequences s p.asset owner (minus p.amount) paid.1;
        moves = λ id who. omega (arith, change-debit s p.asset owner p.amount id who paid.1);
      })

apply_kind-Moved :
    (s : State) (r : Receipt) (owner sequence : ℕ) (op : Operation) (call : Call) (rules : Rules)
    {s' : State}
    → apply_kind s r owner sequence op call rules ≡ ok s'
    → Moved s s' owner sequence op
unfolding apply_kind deploy_lots
apply_kind-Moved s r owner sequence (fee_rate e v) call rules h =
    let same = govern_still s _ s.fees rules.fee_schedule h in
    still s _ owner sequence (fee_rate e v) same.0 same.1 (λ id who. refl) (λ id who. refl)
apply_kind-Moved s r owner sequence (fee_admin p) call rules h =
    let same = govern_still s _ s.fees rules.fee_schedule h in
    still s _ owner sequence (fee_admin p) same.0 same.1 (λ id who. refl) (λ id who. refl)
apply_kind-Moved s r owner sequence (deploy_progressive p) call rules h =
    let quote = >>=-eq-ok (progressive_mint_quote p.cap 0 v1) _ h in
    let same = deploy_asset_still s owner sequence _ _ quote.2 in
    still s _ owner sequence (deploy_progressive p) same.0 same.1 (λ id who. refl) (λ id who. refl)
apply_kind-Moved s r owner sequence (deploy_progressive_v2 p) call rules h =
    let quote = >>=-eq-ok (progressive_mint_quote p.cap 0 v2) _ h in
    let same = deploy_asset_still s owner sequence _ _ quote.2 in
    still s _ owner sequence (deploy_progressive_v2 p) same.0 same.1 (λ id who. refl)
      (λ id who. refl)
apply_kind-Moved s r owner sequence (deploy p) call rules h =
    let same = deploy_asset_still s owner sequence _ _ h in
    still s _ owner sequence (deploy p) same.0 same.1 (λ id who. refl) (λ id who. refl)
apply_kind-Moved s r owner sequence (inscribe t c) call rules h =
    inscribe_asset-Moved s r owner sequence t c h
apply_kind-Moved s r owner sequence (mint asset amount) call rules h =
    let a = >>=-eq-ok (known_asset s asset) _ h in
    mint_asset-Moved s owner sequence asset a.0 amount a.2
apply_kind-Moved s r owner sequence (transfer asset amount to) call rules h =
    let a = >>=-eq-ok (known_asset s asset) _ h in
    transfer_asset-Moved s owner sequence asset a.0 amount to a.2
apply_kind-Moved s r owner sequence (offer p) call rules h =
    let a = >>=-eq-ok (known_asset s p.asset) _ h in
    let whole = require_that-eq-ok (whole_inscription a.0 p.amount) inscription_amount _ a.2 in
    lock_offer-Moved s r owner sequence p call whole.1

counted_in :
    (m : List (Entry HexId ℕ)) (owner n who : ℕ)
    → or_zero (get (set m owner n) who) ≡ (if owner == who then n else or_zero (get m who))
counted_in m owner n who = elim (Bool-cases (owner == who)) [
  | inl e ↦
      subst (λ x. or_zero (get (set m owner n) x) ≡ (if owner == x then n else or_zero (get m x)))
        (==→eq owner who e) (rw (get-set m owner n, ==-refl owner))
  | inr e ↦ rw (get-set_other m owner n who e, e)
]

apply_as-Step :
    (s : State) (genesis : ℕ) (r : Receipt) (e : Envelope) (call : Call) (rules : Rules)
    (signer : Option ℕ) {s' : State}
    → apply_as s genesis r e call rules signer ≡ ok s'
    → (owner : ℕ) × (signer ≡ some owner) × Step owner e.sequence e.op (view s) (view s')
unfolding view
apply_as-Step s genesis r e call rules none h = cc
apply_as-Step s genesis r e call rules (some owner) h =
    let zeroth = require_that-eq-ok (is_id owner) wrong_byte_length _ h in
    let one = require_that-eq-ok (not (owner == zero_id)) zero_sender _ zeroth.1 in
    let two = require_that-eq-ok (e.genesis == genesis) wrong_genesis _ one.1 in
    let three =
      require_that-eq-ok (e.sequence == or_zero (get s.sequences owner) && ltb e.sequence max_u64)
        wrong_sequence _ two.1 in
    let next = >>=-eq-ok (apply_kind s r owner e.sequence e.op call rules) _ three.1 in
    let moved = apply_kind-Moved s r owner e.sequence e.op call rules next.1 in
    subst
      (λ z.
        (who : ℕ) × (◌≡◌ {A = Option ℕ} (some owner) (some who))
        × Step who e.sequence e.op (view s) (view z))
      (ok-inj next.2)
      (
        owner,
        refl,
        record {
          in_turn =
              ==→eq e.sequence (or_zero (get s.sequences owner))
                (&&-true (e.sequence == or_zero (get s.sequences owner)) (ltb e.sequence max_u64)
                  three.0).0;
          counted = λ who.
              subst
                (λ m.
                  or_zero (get (set m owner (e.sequence + 1)) who)
                  ≡ (if owner == who then e.sequence + 1 else or_zero (get s.sequences who)))
                (sym moved.sequences) (counted_in s.sequences owner (e.sequence + 1) who);
          moves = moved.moves;
        },
      )

-- An applied operation is a step of the abstract ledger, by its signer and in its turn: the signer's
-- sequence was the envelope's and goes up by one, no other account's changes, and of every asset every
-- account has what it had, less what the operation takes from it and with what the operation gives to
-- it. A transfer takes from the signer and gives to the recipient, an offer takes, a mint and an
-- inscription give to the signer, and no other operation moves anything.
pub apply_operation-Step :
    (s : State) (genesis : ℕ) (r : Receipt) (e : Envelope) (call : Call) (rules : Rules)
    {s' : State}
    → apply_operation s genesis r e call rules ≡ ok s'
    → (owner : ℕ) × (r.signer ≡ some owner) × Step owner e.sequence e.op (view s) (view s')
unfolding apply_operation
apply_operation-Step s genesis r e call rules h = apply_as-Step s genesis r e call rules r.signer h
