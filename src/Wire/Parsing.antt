-- ===== src/Wire/Parsing.antt =====
-- `parseCall` of packages/native/src/codec.ts.
use qlyphs_wallet.Prelude.{
  ℕ, zero, suc, Bool, ◌&&◌, ◌||◌, List, length, leb, ◌==◌, Result, ok, err, require_that, ◌>>=◌,
  ◌>>◌, if◌then◌else◌, same_text,
}
use qlyphs_wallet.Refusal.{
  Refusal, call_limit, nested_batch, batch_too_large, unsupported_call, unsupported_address,
  non_canonical_call,
}
use qlyphs_wallet.Wire.Calls.{
  Call, remark, propose, approve, pay, batch, Calls, no_calls, more_calls, call_bytes,
  max_batch_calls,
}
use qlyphs_wallet.Wire.Reading.{Read, read_int, read_end}
use qlyphs_wallet.Wire.Compact.{read_compact}
use qlyphs_wallet.Wire.Fields.{read_id, read_vector, max_payload}

abbrev pub read_remark : Bool → List ℕ → Result Refusal (Read Call)
read_remark event input = do
  payload ← read_vector max_payload input
  ok (record { value = remark payload.value event; rest = payload.rest })

abbrev pub read_pay : List ℕ → Result Refusal (Read Call)
read_pay input = do
  kind ← read_int 1 input
  require_that (kind.value == 0) unsupported_address
  to ← read_id 32 kind.rest
  amount ← read_compact to.rest
  ok (record { value = pay to.value amount.value; rest = amount.rest })

-- `inner` is `parseCall` one level deeper.
abbrev pub read_propose : (List ℕ → Result Refusal Call) → List ℕ → Result Refusal (Read Call)
read_propose inner input = do
  multisig ← read_id 32 input
  body ← read_vector 2048 multisig.rest
  call ← inner body.value
  expiry ← read_int 4 body.rest
  ok (record { value = propose multisig.value call expiry.value; rest = expiry.rest })

abbrev pub read_approve : (List ℕ → Result Refusal Call) → List ℕ → Result Refusal (Read Call)
read_approve inner input = do
  multisig ← read_id 32 input
  proposal ← read_int 4 multisig.rest
  body ← read_vector 2048 proposal.rest
  call ← inner body.value
  ok (record { value = approve multisig.value proposal.value call; rest = body.rest })

-- `read`, by the pallet and the tag; `on_batch` reads on after the two bytes of a batch.
abbrev pub dispatch :
    (List ℕ → Result Refusal Call)
    → (List ℕ → Result Refusal (Read Call))
    → ℕ
    → ℕ
    → List ℕ
    → Result Refusal (Read Call)
dispatch inner on_batch pallet tag input =
    if pallet == 0 && (tag == 0 || tag == 7)
    then read_remark (tag == 7) input
    else if pallet == 2 && tag == 3
    then read_pay input
    else if pallet == 19 && tag == 1
    then read_propose inner input
    else if pallet == 19 && tag == 2
    then read_approve inner input
    else if pallet == 9 && tag == 2
    then on_batch input
    else err unsupported_call

unfoldable pub read_call :
    (List ℕ → Result Refusal Call)
    → (List ℕ → Result Refusal (Read Call))
    → List ℕ
    → Result Refusal (Read Call)
unfolding read_int
read_call inner on_batch input = do
  pallet ← read_int 1 input
  tag ← read_int 1 pallet.rest
  dispatch inner on_batch pallet.value tag.value tag.rest

abbrev pub no_nesting : List ℕ → Result Refusal (Read Call)
no_nesting input = err nested_batch

-- `Array.from({ length: n }, () => read(true))`
unfoldable pub read_calls :
    (List ℕ → Result Refusal Call) → ℕ → List ℕ → Result Refusal (Read Calls)
read_calls inner zero input = ok (record { value = no_calls; rest = input })
read_calls inner (suc n) input = do
  first ← read_call inner no_nesting input
  others ← read_calls inner n first.rest
  ok (record { value = more_calls first.value others.value; rest = others.rest })

unfoldable pub read_batch :
    (List ℕ → Result Refusal Call) → Bool → List ℕ → Result Refusal (Read Call)
read_batch inner outermost input = do
  require_that outermost nested_batch
  count ← read_compact input
  require_that (leb count.value max_batch_calls) batch_too_large
  calls ← read_calls inner count.value count.rest
  ok (record { value = batch calls.value; rest = calls.rest })

-- `parseCall(data, depth)` with `room = 4 - depth`: none is left where the depth exceeds three, and all
-- of it at the outermost call.
unfoldable pub parse_call : ℕ → List ℕ → Result Refusal Call
parse_call zero input = err call_limit
parse_call (suc room) input = do
  require_that (leb (length input) 4096) call_limit
  call ← read_call (parse_call room) (read_batch (parse_call room) (room == 3)) input
  read_end call.rest
  bs ← call_bytes call.value
  require_that (same_text bs input) non_canonical_call
  ok call.value
