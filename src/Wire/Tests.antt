-- ===== src/Wire/Tests.antt =====
-- The bytes of packages/native/src/codec.ts at concrete inputs.
use qlyphs_wallet.Prelude.{
  ℕ, ◌≡◌, refl, ok, ◌++◌, [], ◌∷◌, List, true, false, arith, replicate, ◌↔◌,
}
use qlyphs_wallet.Wire.Bytes.{uint, low_bytes, compact, width_from}
use qlyphs_wallet.Operations.{Envelope, fee_admin, cancel}
use qlyphs_wallet.Wire.Calls.{Call, remark, batch, more_calls, no_calls, call_bytes}
use qlyphs_wallet.Wire.Bytes.{vec, id_bytes}
use qlyphs_wallet.Wire.Compact.{read_compact, read_compact-compact}
use qlyphs_wallet.Wire.Parsing.{parse_call}
use qlyphs_wallet.Wire.CallTrip.{Readable, parse_call-call_bytes, parse_call_unique}
use qlyphs_wallet.Wire.Payload.{encode, operation_bytes}
use qlyphs_wallet.Wire.Decoding.{DecodeOptions, decode}
use qlyphs_wallet.Wire.PayloadTrip.{decode-encode}
use qlyphs_wallet.Wire.Exact.{decode_iff}
use qlyphs_wallet.Wire.Trip.{Enabled}
use qlyphs_wallet.Wire.Reading.{read_int, read_int-uint}

compact_of_a_long_amount : compact 1_073_741_824 ≡ ok (3 ∷ 0 ∷ 0 ∷ 0 ∷ 64 ∷ [])
unfolding compact uint low_bytes width_from
compact_of_a_long_amount = refl

read_int_test :
    read_int 4 ((2 ∷ 1 ∷ 0 ∷ 0 ∷ []) ++ (9 ∷ [])) ≡ ok (record { value = 258; rest = 9 ∷ [] })
unfolding uint low_bytes
read_int_test = read_int-uint 258 4 (9 ∷ []) refl

read_compact-compact_example :
    read_compact ((3 ∷ 0 ∷ 0 ∷ 0 ∷ 64 ∷ []) ++ (9 ∷ []))
    ≡ ok (record { value = 1_073_741_824; rest = 9 ∷ [] })
unfolding compact uint low_bytes width_from
read_compact-compact_example = read_compact-compact 1_073_741_824 (9 ∷ []) refl

abbrev a_batch : Call
a_batch = batch (more_calls (remark (1 ∷ []) true) no_calls)

abbrev a_batch_bytes : List ℕ
a_batch_bytes = 9 ∷ 2 ∷ 4 ∷ 0 ∷ 7 ∷ 4 ∷ 1 ∷ []

parse_call-call_bytes_example : parse_call 4 a_batch_bytes ≡ ok a_batch
unfolding Readable call_bytes vec compact uint low_bytes width_from
parse_call-call_bytes_example =
    parse_call-call_bytes 4 a_batch (refl, (omega arith, omega arith)) refl (omega arith)

parse_call_test : ◌≡◌ {A = List ℕ} a_batch_bytes a_batch_bytes
parse_call_test =
    parse_call_unique 4 4 a_batch_bytes a_batch_bytes parse_call-call_bytes_example
      parse_call-call_bytes_example

abbrev cancelling : Envelope
cancelling = record { genesis = 99; sequence = 3; op = fee_admin cancel }

abbrev cancelling_payload : List ℕ
cancelling_payload =
    0x51 ∷ 0x4c ∷ 0x59 ∷ 0x50 ∷ 1 ∷ (replicate 31 0 ++ (99 ∷ 3 ∷ (replicate 7 0 ++ (14 ∷ 0 ∷ []))))

abbrev scheduled : DecodeOptions
scheduled = record { progressive = false; progressive_v2 = false; fee_schedule = true }

decode-encode_example : decode scheduled cancelling_payload ≡ ok cancelling
unfolding encode operation_bytes id_bytes uint low_bytes
decode-encode_example = decode-encode scheduled cancelling refl refl

decode_iff_example :
    (decode scheduled cancelling_payload ≡ ok cancelling)
    ↔ (Enabled scheduled cancelling.op × (encode cancelling ≡ ok cancelling_payload))
decode_iff_example = decode_iff scheduled cancelling_payload cancelling
