-- ===== src/Exchange/Guardrail.antt =====
-- The price guardrail of packages/shared/src/guardrail.ts. Prices are natural numbers; a deviation is
-- an integer in the two parts `pos n` and `negsuc n`, the latter for -(n + 1).
use qlyphs_wallet.Prelude.{
  ℕ, zero, suc, ◌+◌, ◌-◌, ◌*◌, ◌/◌, ◌≡◌, arith, Bool, ltb, ◌==◌, ◌||◌, ◌&&◌, not, ap, ◌∙◌,
  if◌then◌else◌, List, [], ◌∷◌, Option, none, some, Result, ok, err,
}
use qlyphs_wallet.Exchange.Amounts.{bps_denominator}

pub data ℤ : Type 0 where
  pos negsuc : ℕ → ℤ

abbrev pub negated : ℕ → ℤ
negated zero = pos 0
negated (suc n) = negsuc n

pub record ReferenceTrade : Type 0 where
  pub amount : ℕ
  pub price : ℕ

-- The notional and the volume of the trades that count.
pub record Volume : Type 0 where
  pub notional : ℕ
  pub volume : ℕ

unfoldable pub add_trades : List ReferenceTrade → Volume → Volume
add_trades [] v = v
add_trades (t ∷ ts) v =
    let skipped = add_trades ts v in
    let counted =
      add_trades ts
        (record { notional = v.notional + t.amount * t.price; volume = v.volume + t.amount }) in
    if t.amount == 0 || t.price == 0 then skipped else counted

abbrev pub average_price : Volume → Option ℕ
average_price v = if v.volume == 0 then none else some ((v.notional + v.volume / 2) / v.volume)

unfoldable pub vwap : List ReferenceTrade → Option ℕ
unfolding add_trades
vwap trades = average_price (add_trades trades (record { notional = 0; volume = 0 }))

unfoldable pub order_book_mid : Option ℕ → Option ℕ → Option ℕ
order_book_mid (some bid) (some ask) = if bid == 0 || ask == 0 then none else some ((bid + ask) / 2)
order_book_mid _ _ = none

pub data ReferencePrice : Type 0 where
  from_vwap from_mid : (price : ℕ) → ReferencePrice
  no_reference : ReferencePrice

abbrev pub mid_reference : Option ℕ → ReferencePrice
mid_reference (some p) = from_mid p
mid_reference none = no_reference

abbrev pub or_mid : Option ℕ → Option ℕ → ReferencePrice
or_mid (some p) mid = from_vwap p
or_mid none mid = mid_reference mid

-- `referencePrice` of the trades that `selectReferenceTrades` picked.
unfoldable pub reference_price : List ReferenceTrade → Option ℕ → Option ℕ → ReferencePrice
reference_price selected best_bid best_ask =
    or_mid (vwap selected) (order_book_mid best_bid best_ask)

pub data DeviationVerdict : Type 0 where
  fine needs_confirmation rejected : DeviationVerdict

pub record DeviationResult : Type 0 where
  pub verdict : DeviationVerdict
  pub deviation_bps : Option ℤ
  pub reference : Option ℕ

pub data GuardrailFault : Type 0 where
  price_must_be_positive : GuardrailFault

abbrev pub guardrail_confirm_deviation_bps : ℕ
guardrail_confirm_deviation_bps = 2_000

abbrev pub guardrail_reject_below_bps : ℕ
guardrail_reject_below_bps = 8_000

abbrev pub guardrail_reject_above_bps : ℕ
guardrail_reject_above_bps = 40_000

abbrev pub verdict_of : ℕ → ℕ → ℕ → DeviationVerdict
verdict_of scaled reject_limit reference =
    if ltb (reject_limit * reference) scaled
    then rejected
    else if ltb (guardrail_confirm_deviation_bps * reference) scaled
    then needs_confirmation
    else fine

-- `checkDeviation` of a positive price against a positive reference.
abbrev pub deviation : ℕ → ℕ → DeviationResult
deviation price reference =
    if ltb price reference
    then record {
      verdict =
          verdict_of ((reference - price) * bps_denominator) guardrail_reject_below_bps reference;
      deviation_bps = some (negated ((reference - price) * bps_denominator / reference));
      reference = some reference;
    }
    else record {
      verdict =
          verdict_of ((price - reference) * bps_denominator) guardrail_reject_above_bps reference;
      deviation_bps = some (pos ((price - reference) * bps_denominator / reference));
      reference = some reference;
    }

abbrev pub unguarded : DeviationResult
unguarded = record { verdict = fine; deviation_bps = none; reference = none }

unfoldable pub check_deviation : ℕ → Option ℕ → Result GuardrailFault DeviationResult
check_deviation zero reference = err price_must_be_positive
check_deviation (suc n) none = ok unguarded
check_deviation (suc n) (some zero) = ok unguarded
check_deviation (suc n) (some (suc r)) = ok (deviation (suc n) (suc r))

pub data GuardrailDecision : Type 0 where
  allowed confirmation_required refused : DeviationResult → GuardrailDecision

abbrev pub decide : DeviationVerdict → DeviationResult → Bool → GuardrailDecision
decide rejected result confirmed = refused result
decide needs_confirmation result confirmed =
    if confirmed then allowed result else confirmation_required result
decide fine result confirmed = allowed result

abbrev pub decide_on :
    Result GuardrailFault DeviationResult → Bool → Result GuardrailFault GuardrailDecision
decide_on (err e) confirmed = err e
decide_on (ok result) confirmed = ok (decide result.verdict result confirmed)

unfoldable pub evaluate_guardrail : ℕ → Option ℕ → Bool → Result GuardrailFault GuardrailDecision
evaluate_guardrail price reference confirmed = decide_on (check_deviation price reference) confirmed

-- The verdict that a price deserves: rejected below a fifth or above the fivefold of the reference, to
-- be confirmed below four fifths or above six fifths of it.
abbrev pub deserved : ℕ → ℕ → DeviationVerdict
deserved price reference =
    if ltb (5 * price) reference || ltb (5 * reference) price
    then rejected
    else if ltb (5 * price) (4 * reference) || ltb (6 * reference) (5 * price)
    then needs_confirmation
    else fine

deviation-deserved :
    (price reference : ℕ) → (deviation price reference).verdict ≡ deserved price reference
deviation-deserved price reference = ground arith

-- The decision that is owed to a price: refused outside a fifth to the fivefold of the reference
-- whether or not it was confirmed, to be confirmed outside four fifths to six fifths of it unless it
-- was, and allowed otherwise.
abbrev pub owed : ℕ → ℕ → Bool → DeviationResult → GuardrailDecision
owed price reference confirmed d =
    if ltb (5 * price) reference || ltb (5 * reference) price
    then refused d
    else if not confirmed && (ltb (5 * price) (4 * reference) || ltb (6 * reference) (5 * price))
    then confirmation_required d
    else allowed d

decide-owed :
    (price reference : ℕ) (confirmed : Bool) (d : DeviationResult)
    → decide (deserved price reference) d confirmed ≡ owed price reference confirmed d
decide-owed price reference confirmed d = ground arith

-- For every positive price and positive reference the guardrail decides. It refuses a price below a
-- fifth or above the fivefold of the reference, confirmed or not; it asks for a confirmation of one
-- that is otherwise below four fifths or above six fifths of it and was not confirmed; and it allows
-- every other. What it reports with the decision is the reference and the verdict by the same bounds.
pub evaluate_guardrail-deserved :
    (n r : ℕ) (confirmed : Bool)
    → (d : DeviationResult) × (evaluate_guardrail (suc n) (some (suc r)) confirmed
        ≡ ok (owed (suc n) (suc r) confirmed d))
      × (d.verdict ≡ deserved (suc n) (suc r))
      × (d.reference ≡ some (suc r))
unfolding evaluate_guardrail check_deviation
evaluate_guardrail-deserved n r confirmed =
    let d = deviation (suc n) (suc r) in
    (
      d,
      ap (λ v. ok (decide v d confirmed)) (deviation-deserved (suc n) (suc r))
          ∙ ap ok (decide-owed (suc n) (suc r) confirmed d),
      deviation-deserved (suc n) (suc r),
      ground arith,
    )
