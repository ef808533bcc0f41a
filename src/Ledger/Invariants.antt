-- ===== src/Ledger/Invariants.antt =====
-- `assertInvariants` of packages/native/src/protocol.ts as a test: what the reducer stops at after a
-- receipt when it fails.
use qlyphs_wallet.Prelude.{
  ℕ, ◌+◌, Option, none, some, Bool, true, false, ◌&&◌, ◌||◌, not, List, [], ◌∷◌, leb, ltb, ◌==◌,
  any_of, length, Result, ok, err, if◌then◌else◌,
}
use qlyphs_wallet.Prelude.Maps.{Entry, number_key, text_key, pair_key, get}
use qlyphs_wallet.Refusal.{Refusal}
use qlyphs_wallet.Operations.{HexId, u32_max}
use qlyphs_wallet.Fees.State.{FeeRules, FeeState, max_safe, is_id}
use qlyphs_wallet.Fees.Check.{check_fee_state}
use qlyphs_wallet.Progressive.Quote.{
  ProgressiveProfile, progressive_mint_quote, ProgressiveMintQuote,
}
use qlyphs_wallet.Ledger.Data.{
  State, Rules, Asset, AssetPolicy, inscription_policy, MintRight, no_right, exhausted, anchored,
  Inscription, progressive_profile, first_inscription,
}
use qlyphs_wallet.Ledger.Activation.{fee_schedule_active}
use qlyphs_wallet.Ledger.Apply.{is_inscription}
use qlyphs_wallet.Ledger.Supply.{held, locked_in}

abbrev pub grace_of : Option FeeRules → Option ℕ
grace_of none = none
grace_of (some f) = some f.grace

-- The fee state is there exactly while the schedule is active, and it is well formed.
abbrev pub fees_hold : Option FeeState → Rules → ℕ → Bool
fees_hold none rules height = not (fee_schedule_active rules height)
fees_hold (some f) rules height =
    fee_schedule_active rules height && check_fee_state f height (grace_of rules.fee_schedule)

-- The supply of one asset: what is held and locked of it is what was minted, within the cap. Amounts
-- are natural numbers, so that no balance is negative.
abbrev pub supply_holds : State → List (Entry HexId Asset) → Bool
supply_holds s [] = true
supply_holds s (e ∷ assets) =
    (held s e.key + locked_in s e.key == e.value.minted
      && leb (held s e.key + locked_in s e.key) e.value.definition.cap)
    && supply_holds s assets

abbrev pub anchor_holds : State → MintRight → Bool
anchor_holds s (anchored a) =
    is_id a.hash
    && leb a.height s.height
    && leb a.index u32_max
    && (ltb a.height s.height || a.hash == s.hash)
anchor_holds s right = true

-- `(a.right === null) === (q.remainingLots === 0n)`, where a missing right is not null.
abbrev pub right_matches : MintRight → ℕ → Bool
right_matches exhausted remaining = remaining == 0
right_matches right remaining = not (remaining == 0)

abbrev pub quote_holds : Asset → Result Refusal ProgressiveMintQuote → Bool
quote_holds a (err m) = false
quote_holds a (ok q) = a.definition.limit == q.lot_size && right_matches a.right q.remaining_lots

abbrev pub is_absent_right : MintRight → Bool
is_absent_right no_right = true
is_absent_right right = false

abbrev pub lots_hold : State → Asset → Option ProgressiveProfile → Bool
lots_hold s a none = is_absent_right a.right
lots_hold s a (some profile) =
    quote_holds a (progressive_mint_quote a.definition.cap a.minted profile)
    && anchor_holds s a.right

-- `assertProgressiveInvariants`
unfoldable pub progressive_holds : State → List (Entry HexId Asset) → Bool
progressive_holds s [] = true
progressive_holds s (e ∷ assets) =
    lots_hold s e.value (progressive_profile e.value.definition.policy)
    && progressive_holds s assets

abbrev pub is_entry : Option HexId → HexId → Bool
is_entry none id = false
is_entry (some a) id = a == id

abbrev pub is_blank : List ℕ → Bool
is_blank [] = true
is_blank _ = false

abbrev pub inscribed : HexId → Asset → Option Inscription → Bool
inscribed id a none = false
inscribed id a (some ins) =
    ins.id == id
    && ins.creator == a.creator
    && a.minted == 1
    && a.definition.cap == 1
    && a.definition.limit == 0
    && a.definition.decimals == 0
    && is_blank a.definition.symbol

abbrev pub named_or_inscribed : State → HexId → Asset → AssetPolicy → Bool
named_or_inscribed s id a inscription_policy = inscribed id a (get s.inscriptions id)
named_or_inscribed s id a policy = is_entry (get s.symbols a.definition.symbol) id

abbrev pub names_hold : State → List (Entry HexId Asset) → Bool
names_hold s [] = true
names_hold s (e ∷ assets) =
    named_or_inscribed s e.key e.value e.value.definition.policy && names_hold s assets

-- `named`
abbrev pub named_count : List (Entry HexId Asset) → ℕ
named_count [] = 0
named_count (e ∷ assets) =
    let rest = named_count assets in
    if is_inscription e.value.definition.policy then rest else rest + 1

abbrev pub is_inscribed_asset : Option Asset → Bool
is_inscribed_asset none = false
is_inscribed_asset (some a) = is_inscription a.definition.policy

-- The loop over the inscriptions, with the numbers it has seen.
abbrev pub numbers_hold : State → List ℕ → List (Entry HexId Inscription) → Bool
numbers_hold s seen [] = true
numbers_hold s seen (e ∷ inscriptions) =
    (e.value.id == e.key
      && is_inscribed_asset (get s.assets e.key)
      && leb e.value.number max_safe
      && leb first_inscription e.value.number
      && ltb e.value.number s.next_inscription
      && not (any_of (λ n. n == e.value.number) seen))
    && numbers_hold s (e.value.number ∷ seen) inscriptions

unfoldable pub assert_invariants : State → Bool → Rules → Bool
unfolding progressive_holds
assert_invariants s progressive rules =
    fees_hold s.fees rules s.height
    && supply_holds s s.assets
    && (not progressive || progressive_holds s s.assets)
    && names_hold s s.assets
    && length s.symbols == named_count s.assets
    && (leb s.next_inscription max_safe
        && s.next_inscription == first_inscription + length s.inscriptions)
    && numbers_hold s [] s.inscriptions
