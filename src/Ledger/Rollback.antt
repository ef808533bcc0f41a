-- ===== src/Ledger/Rollback.antt =====
-- `apply` and `rollback` of packages/native/src/protocol.ts: a block that is not final can be undone.
use qlyphs_wallet.Prelude.{
  ◌+◌, ℕ, ◌≤◌, Option, none, some, true, false, List, [], ◌∷◌, ltb, ◌==◌, if◌then◌else◌, ◌≡◌, refl,
  sym, ap, subst, ◌∙◌, arith, Bool-cases, inl, inr, ok, >>=-eq-ok, ok-inj, ==-ne, ==-refl, le→leb,
}
use qlyphs_wallet.Prelude.Maps.{
  Entry, number_key, text_key, pair_key, get, set, get-set_other, get-set,
}
use qlyphs_wallet.Operations.{HexId}
use qlyphs_wallet.Ledger.Data.{State}
use qlyphs_wallet.Ledger.Blocks.{
  NativeIndexer, from_height, apply_block, roll_to, rollback, Block, block_state,
}
use qlyphs_wallet.Ledger.BlockStanding.{block_state-position, block_state_next}

get-from_height : (n h : ℕ) (m : List (Entry ℕ State)) → n ≤ h → get (from_height n m) h ≡ get m h
get-from_height n h [] le = refl
get-from_height n h (e ∷ m) le = elim (Bool-cases (ltb e.key n)) [
  | inl low ↦ rw (low, other_key e.key low, get-from_height n h m le)
  | inr high ↦ rw (high, get-from_height n h m le)
]
  where
    other_key : (k : ℕ) → ltb k n ≡ true → (k == h) ≡ false
    other_key k low = ground arith

-- `x` with the block undone: its state with the finality that the block brought.
abbrev pub undone : NativeIndexer → Block → State
undone x b = record x.current { finalized = b.finalized }

roll_to-current :
    (x : NativeIndexer) (height : ℕ) (hash : HexId) (o : Option State) (s : State)
    → o ≡ some s
    → (s.hash == hash) ≡ true
    → (y : NativeIndexer) × (roll_to x height hash o ≡ ok y)
      × (y.current ≡ record s { finalized = x.current.finalized })
roll_to-current x height hash none s e same = cc
roll_to-current x height hash (some t) s e same =
    let t_is_s : t ≡ s = cc in
    subst
      (λ z.
        (y : NativeIndexer) × (roll_to x height hash (some z) ≡ ok y)
        × (y.current ≡ record s { finalized = x.current.finalized }))
      (sym t_is_s) (rw same (_, refl, refl))

-- A block can be undone as long as it has not made the block before it final: rolling back to the
-- height and the hash before it succeeds, and gives the state before it, with the finality that the
-- block brought. The reader keeps its history, in which the state before the block stands.
pub rollback-apply_block :
    (x : NativeIndexer) (b : Block) {x' : NativeIndexer}
    → x.retain_history ≡ true
    → get x.history x.current.height ≡ some x.current
    → b.finalized ≤ x.current.height
    → apply_block x b ≡ ok x'
    → (y : NativeIndexer) × (rollback x' x.current.height x.current.hash ≡ ok y)
      × (y.current ≡ undone x b)
unfolding apply_block rollback
rollback-apply_block x b {x'} kept there unfinal h =
    let s = >>=-eq-ok (block_state x.current x.genesis x.rules b) _ h in
    let stands = block_state-position x.current x.genesis x.rules b s.1 in
    let next = block_state_next x.current x.genesis x.rules b s.1 in
    let final : s.0.finalized ≡ b.finalized = ap (λ p. p.finalized) stands in
    let high : s.0.height ≡ b.height = ap (λ p. p.height) stands in
    let history = if x.retain_history then x.history else [] in
    let found : get (from_height s.0.finalized (set history s.0.height s.0)) x.current.height
        ≡ some x.current =
      get-from_height s.0.finalized x.current.height (set history s.0.height s.0)
        (omega (arith, final, unfinal))
      ∙ get-set_other history s.0.height s.0 x.current.height
          (==-ne s.0.height x.current.height (omega (arith, high, next.0)))
      ∙ subst (λ b. get (if b then x.history else []) x.current.height ≡ some x.current) (sym kept)
          there in
    let applied : NativeIndexer = record x {
      current = s.0;
      history = from_height s.0.finalized (set history s.0.height s.0);
    } in
    let done =
      roll_to-current applied x.current.height x.current.hash (get applied.history x.current.height)
        x.current found (==-refl x.current.hash) in
    subst
      (λ z.
        (y : NativeIndexer) × (rollback z x.current.height x.current.hash ≡ ok y)
        × (y.current ≡ undone x b))
      (ok-inj s.2)
      (
        done.0,
        rw (le→leb s.0.finalized x.current.height (omega (arith, final, unfinal))) done.1,
        done.2 ∙ ap (λ f. record x.current { finalized = f }) final,
      )

-- A reader that has applied a block, whether or not it keeps its history, has its new state in its
-- history under its height, which is one above the last. A rollback to that height and that state's
-- hash then succeeds, and leaves the reader in the same state.
pub apply_block-recorded :
    (x : NativeIndexer) (b : Block) {x' : NativeIndexer}
    → apply_block x b ≡ ok x'
    → (get x'.history x'.current.height ≡ some x'.current)
      × (x'.current.height ≡ x.current.height + 1)
      × (y : NativeIndexer) × (rollback x' x'.current.height x'.current.hash ≡ ok y)
      × (y.current ≡ x'.current)
unfolding apply_block rollback
apply_block-recorded x b {x'} h =
    let s = >>=-eq-ok (block_state x.current x.genesis x.rules b) _ h in
    let stands = block_state-position x.current x.genesis x.rules b s.1 in
    let next = block_state_next x.current x.genesis x.rules b s.1 in
    let final : s.0.finalized ≡ b.finalized = ap (λ p. p.finalized) stands in
    let high : s.0.height ≡ b.height = ap (λ p. p.height) stands in
    let history = if x.retain_history then x.history else [] in
    let open_yet : s.0.finalized ≤ s.0.height = omega (arith, final, high, next.2) in
    let found : get (from_height s.0.finalized (set history s.0.height s.0)) s.0.height ≡ some s.0 =
      get-from_height s.0.finalized s.0.height (set history s.0.height s.0) open_yet
      ∙ get-set history s.0.height s.0 in
    let applied : NativeIndexer = record x {
      current = s.0;
      history = from_height s.0.finalized (set history s.0.height s.0);
    } in
    let done =
      roll_to-current applied s.0.height s.0.hash (get applied.history s.0.height) s.0 found
        (==-refl s.0.hash) in
    subst
      (λ z.
        (get z.history z.current.height ≡ some z.current)
        × (z.current.height ≡ x.current.height + 1)
        × (y : NativeIndexer) × (rollback z z.current.height z.current.hash ≡ ok y)
        × (y.current ≡ z.current))
      (ok-inj s.2)
      (found, high ∙ next.0, done.0, rw (le→leb s.0.finalized s.0.height open_yet) done.1, done.2)
