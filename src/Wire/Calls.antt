-- ===== src/Wire/Calls.antt =====
-- The runtime calls of packages/native/src/codec.ts and their bytes.
use qlyphs_wallet.Prelude.{
  ℕ, suc, Bool, true, false, ◌&&◌, List, [], ◌∷◌, ◌++◌, leb, Result, ok, require_that, ◌>>=◌, ◌>>◌,
  if◌then◌else◌,
}
use qlyphs_wallet.Refusal.{Refusal, unsupported_batch}
use qlyphs_wallet.Operations.{HexId}
use qlyphs_wallet.Wire.Bytes.{uint, compact, vec, id_bytes}

abbrev pub max_batch_calls : ℕ
max_batch_calls = 3

mutual
  pub data Call : Type 0 where
    remark : (payload : List ℕ) (event : Bool) → Call
    propose : (multisig : HexId) (call : Call) (expiry : ℕ) → Call
    approve : (multisig : HexId) (proposal : ℕ) (call : Call) → Call
    pay : (to : HexId) (amount : ℕ) → Call
    batch : (calls : Calls) → Call

  pub data Calls : Type 0 where
    no_calls : Calls
    more_calls : Call → Calls → Calls

abbrev pub call_count : Calls → ℕ
call_count no_calls = 0
call_count (more_calls c cs) = suc (call_count cs)

abbrev pub no_batch : Calls → Bool
no_batch no_calls = true
no_batch (more_calls (batch cs) ds) = false
no_batch (more_calls c ds) = no_batch ds

unfoldable mutual
  pub call_bytes : Call → Result Refusal (List ℕ)
  call_bytes (remark payload event) = do bs ← vec payload; ok (0 ∷ ((if event then 7 else 0) ∷ bs))
  call_bytes (pay to amount) = do
    account ← id_bytes to 32
    bs ← compact amount
    ok (2 ∷ (3 ∷ (0 ∷ (account ++ bs))))
  call_bytes (propose multisig call expiry) = do
    account ← id_bytes multisig 32
    inner ← call_bytes call
    bs ← vec inner
    end ← uint expiry 4
    ok (19 ∷ (1 ∷ (account ++ (bs ++ end))))
  call_bytes (approve multisig proposal call) = do
    account ← id_bytes multisig 32
    index ← uint proposal 4
    inner ← call_bytes call
    bs ← vec inner
    ok (19 ∷ (2 ∷ (account ++ (index ++ bs))))
  call_bytes (batch calls) = do
    require_that (leb (call_count calls) max_batch_calls && no_batch calls) unsupported_batch
    count ← compact (call_count calls)
    bs ← calls_bytes calls
    ok (9 ∷ (2 ∷ (count ++ bs)))

  pub calls_bytes : Calls → Result Refusal (List ℕ)
  calls_bytes no_calls = ok []
  calls_bytes (more_calls c cs) = do first ← call_bytes c; rest ← calls_bytes cs; ok (first ++ rest)
