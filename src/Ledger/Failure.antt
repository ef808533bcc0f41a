-- ===== src/Ledger/Failure.antt =====
-- What `failedFeeOperation` of packages/native/src/protocol.ts tells of a failed extrinsic.
use qlyphs_wallet.Prelude.{
  ℕ, Option, none, some, Bool, true, false, List, ◌≡◌, refl, sym, ap, subst, ◌∙◌, Bool-cases, inl,
  inr, Result, ok, err, ok-inj, ◌>>=◌, if◌then◌else◌,
}
use qlyphs_wallet.Refusal.{Refusal}
use qlyphs_wallet.Operations.{Envelope}
use qlyphs_wallet.Fees.Rate.{is_fee_bearing}
use qlyphs_wallet.Wire.Calls.{Call}
use qlyphs_wallet.Wire.Parsing.{parse_call}
use qlyphs_wallet.Wire.Decoding.{decode}
use qlyphs_wallet.Ledger.Data.{State, Rules, Receipt, Verdict, fee_batch_failed, extrinsic_failed}
use qlyphs_wallet.Ledger.Activation.{decode_options}
use qlyphs_wallet.Ledger.Context.{
  declared_payload, declared_operation, failure_of, failed_fee_operation, is_batch,
}

-- The operation `e` that a call declares by its payload.
pub record Declares (s : State) (r : Receipt) (rules : Rules) (call : Call) (e : Envelope)
    : Type 0 where
  pub payload : List ℕ
  pub parsed : parse_call 4 r.call_hex ≡ ok call
  pub declared : declared_payload call ≡ some payload
  pub decoded : decode (decode_options rules s.height) payload ≡ ok e

-- The verdict on a failed extrinsic, and what it tells.
abbrev pub FailedAs : State → Receipt → Rules → Option Verdict → Type 0
FailedAs s r rules none =
    (call : Call) (e : Envelope) → Declares s r rules call e → is_fee_bearing e.op ≡ false
FailedAs s r rules (some v) =
    (call : Call) × (e : Envelope) × Declares s r rules call e
    × (is_fee_bearing e.op ≡ true)
    × (v ≡ (if is_batch call then fee_batch_failed else extrinsic_failed))

none-ne-some :
    (payload : List ℕ) {b : Bool} → ◌≡◌ {A = Option (List ℕ)} none (some payload) → b ≡ false
none-ne-some payload h = cc

err-ne-ok {ℓ} :
    {V : Type ℓ} (m : Refusal) (v : V) {b : Bool}
    → ◌≡◌ {A = Result Refusal V} (err m) (ok v)
    → b ≡ false
err-ne-ok m v h = cc

some-inj : (x y : List ℕ) → ◌≡◌ {A = Option (List ℕ)} (some x) (some y) → x ≡ y
some-inj x y h = cc

-- A receipt declares one payload at most.
same_payload :
    (s : State) (r : Receipt) (rules : Rules) (call call' : Call) (e : Envelope)
    (o : Option (List ℕ))
    → parse_call 4 r.call_hex ≡ ok call
    → declared_payload call ≡ o
    → (d : Declares s r rules call' e) → o ≡ some d.payload
same_payload s r rules call call' e o parsed found d =
    sym found ∙ ap declared_payload (ok-inj (sym parsed ∙ d.parsed)) ∙ d.declared

decoded-FailedAs :
    (s : State) (r : Receipt) (rules : Rules) (call : Call) (payload : List ℕ)
    (decoded : Result Refusal Envelope)
    → parse_call 4 r.call_hex ≡ ok call
    → declared_payload call ≡ some payload
    → decode (decode_options rules s.height) payload ≡ decoded
    → FailedAs s r rules
        (elim ((decoded >>= λ e. ok (some e.op)) >>= λ op. ok (failure_of call op)) [
          | err m ↦ none
          | ok verdict ↦ verdict
        ])
decoded-FailedAs s r rules call payload (err m) parsed found h = λ call' e d.
    (let same = same_payload s r rules call call' e (some payload) parsed found d in
      err-ne-ok m e (
        sym h
        ∙ ap (decode (decode_options rules s.height)) (some-inj payload d.payload same)
        ∙ d.decoded))
decoded-FailedAs s r rules call payload (ok e) parsed found h =
    elim (Bool-cases (is_fee_bearing e.op)) [
      | inl bears ↦ rw bears (
        call,
        e,
        record { payload = payload; parsed = parsed; declared = found; decoded = h },
        bears,
        refl,
      )
      | inr free ↦ rw free (λ call' e' d.
          let same = same_payload s r rules call call' e' (some payload) parsed found d in
          subst (λ x. is_fee_bearing x.op ≡ false)
            (ok-inj (
              sym h
              ∙ ap (decode (decode_options rules s.height)) (some-inj payload d.payload same)
              ∙ d.decoded))
            free)
    ]

declared-FailedAs :
    (s : State) (r : Receipt) (rules : Rules) (call : Call) (o : Option (List ℕ))
    → parse_call 4 r.call_hex ≡ ok call
    → declared_payload call ≡ o
    → FailedAs s r rules
        (elim (declared_operation (decode_options rules s.height) o >>= λ op.
          ok (failure_of call op)) [ err m ↦ none | ok verdict ↦ verdict ])
declared-FailedAs s r rules call none parsed found =
    λ call' e d. (none-ne-some d.payload (same_payload s r rules call call' e none parsed found d))
declared-FailedAs s r rules call (some payload) parsed found =
    decoded-FailedAs s r rules call payload (decode (decode_options rules s.height) payload) parsed
      found refl

parsed-FailedAs :
    (s : State) (r : Receipt) (rules : Rules) (parsed : Result Refusal Call)
    → parse_call 4 r.call_hex ≡ parsed
    → FailedAs s r rules
        (elim (parsed >>= λ call.
          declared_operation (decode_options rules s.height) (declared_payload call) >>= λ op.
          ok (failure_of call op)) [ err m ↦ none | ok verdict ↦ verdict ])
parsed-FailedAs s r rules (err m) e = λ call' x d. (err-ne-ok m call' (sym e ∙ d.parsed))
parsed-FailedAs s r rules (ok call) e =
    declared-FailedAs s r rules call (declared_payload call) e refl

pub failed_fee_operation-FailedAs :
    (s : State) (r : Receipt) (rules : Rules)
    → FailedAs s r rules (failed_fee_operation r (decode_options rules s.height))
unfolding failed_fee_operation
failed_fee_operation-FailedAs s r rules = parsed-FailedAs s r rules (parse_call 4 r.call_hex) refl
