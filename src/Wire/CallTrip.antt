-- ===== src/Wire/CallTrip.antt =====
-- Calls written and read back: `callBytes` and `parseCall` of packages/native/src/codec.ts.
use mathlib.Core.List.{append_assoc, append-nil}
use qlyphs_wallet.Prelude.{
  ℕ, zero, suc, ◌≤◌, ◌≡◌, refl, sym, ap, subst, ◌∙◌, arith, Bool, true, false, ◌&&◌, List, [], ◌++◌,
  length, leb, ◌==◌, Result, ok, same_text, same_text_refl, same_text-eq, require_that-eq-ok,
  >>=-eq-ok, ok-inj, le→leb, &&-true,
}
use qlyphs_wallet.Refusal.{Refusal, unsupported_batch, call_limit, non_canonical_call}
use qlyphs_wallet.Wire.Calls.{
  Call, remark, propose, approve, pay, batch, Calls, no_calls, more_calls, call_bytes, calls_bytes,
  call_count, no_batch, max_batch_calls,
}
use qlyphs_wallet.Wire.Bytes.{uint, compact, vec, id_bytes}
use qlyphs_wallet.Wire.Reading.{Read, read_int-uint, read_end}
use qlyphs_wallet.Wire.Compact.{read_compact-compact}
use qlyphs_wallet.Wire.Fields.{read_id-id_bytes, read_vector-vec}
use qlyphs_wallet.Wire.Parsing.{parse_call, read_call, read_calls, read_batch, no_nesting}

module _ (inner : List ℕ → Result Refusal Call)
    (on_batch : List ℕ → Result Refusal (Read Call)) where
  remark_trip :
      (payload rest : List ℕ) (event : Bool) {bs : List ℕ}
      → length payload ≤ 1024
      → call_bytes (remark payload event) ≡ ok bs
      → read_call inner on_batch (bs ++ rest)
        ≡ ok (record { value = remark payload event; rest = rest })
  unfolding read_call call_bytes
  remark_trip payload rest true short h =
      let body = >>=-eq-ok (vec payload) _ h in
      subst
        (λ bs.
          read_call inner on_batch (bs ++ rest)
          ≡ ok (record { value = remark payload true; rest = rest }))
        (ok-inj body.2) (rw (read_vector-vec 1024 payload rest short body.1) refl)
  remark_trip payload rest false short h =
      let body = >>=-eq-ok (vec payload) _ h in
      subst
        (λ bs.
          read_call inner on_batch (bs ++ rest)
          ≡ ok (record { value = remark payload false; rest = rest }))
        (ok-inj body.2) (rw (read_vector-vec 1024 payload rest short body.1) refl)

  pay_trip :
      (to amount : ℕ) (rest : List ℕ) {bs : List ℕ}
      → call_bytes (pay to amount) ≡ ok bs
      → read_call inner on_batch (bs ++ rest) ≡ ok (record { value = pay to amount; rest = rest })
  unfolding read_call call_bytes
  pay_trip to amount rest h =
      let account = >>=-eq-ok (id_bytes to 32) _ h in
      let body = >>=-eq-ok (compact amount) _ account.2 in
      subst
        (λ bs.
          read_call inner on_batch (bs ++ rest)
          ≡ ok (record { value = pay to amount; rest = rest }))
        (ok-inj body.2)
        (rw
          (
            append_assoc account.0 body.0 rest,
            read_id-id_bytes to 32 (body.0 ++ rest) account.1,
            read_compact-compact amount rest body.1,
          )
          refl)

  -- A proposal whose call is read back one level deeper.
  propose_trip :
      (multisig expiry : ℕ) (call : Call) (bytes rest : List ℕ) {bs : List ℕ}
      → call_bytes call ≡ ok bytes
      → length bytes ≤ 2048
      → inner bytes ≡ ok call
      → call_bytes (propose multisig call expiry) ≡ ok bs
      → read_call inner on_batch (bs ++ rest)
        ≡ ok (record { value = propose multisig call expiry; rest = rest })
  unfolding read_call call_bytes
  propose_trip multisig expiry call bytes rest written short back h =
      let account = >>=-eq-ok (id_bytes multisig 32) _ h in
      let within = >>=-eq-ok (call_bytes call) _ account.2 in
      let body = >>=-eq-ok (vec within.0) _ within.2 in
      let end = >>=-eq-ok (uint expiry 4) _ body.2 in
      let same : within.0 ≡ bytes = ok-inj (sym within.1 ∙ written) in
      subst
        (λ bs.
          read_call inner on_batch (bs ++ rest)
          ≡ ok (record { value = propose multisig call expiry; rest = rest }))
        (ok-inj end.2)
        (rw
          (
            append_assoc account.0 (body.0 ++ end.0) rest,
            append_assoc body.0 end.0 rest,
            read_id-id_bytes multisig 32 (body.0 ++ (end.0 ++ rest)) account.1,
            read_vector-vec 2048 within.0 (end.0 ++ rest)
                (subst (λ x. length x ≤ 2048) (sym same) short) body.1,
            ap inner same,
            back,
            read_int-uint expiry 4 rest end.1,
          )
          refl)

  approve_trip :
      (multisig proposal : ℕ) (call : Call) (bytes rest : List ℕ) {bs : List ℕ}
      → call_bytes call ≡ ok bytes
      → length bytes ≤ 2048
      → inner bytes ≡ ok call
      → call_bytes (approve multisig proposal call) ≡ ok bs
      → read_call inner on_batch (bs ++ rest)
        ≡ ok (record { value = approve multisig proposal call; rest = rest })
  unfolding read_call call_bytes
  approve_trip multisig proposal call bytes rest written short back h =
      let account = >>=-eq-ok (id_bytes multisig 32) _ h in
      let index = >>=-eq-ok (uint proposal 4) _ account.2 in
      let within = >>=-eq-ok (call_bytes call) _ index.2 in
      let body = >>=-eq-ok (vec within.0) _ within.2 in
      let same : within.0 ≡ bytes = ok-inj (sym within.1 ∙ written) in
      subst
        (λ bs.
          read_call inner on_batch (bs ++ rest)
          ≡ ok (record { value = approve multisig proposal call; rest = rest }))
        (ok-inj body.2)
        (rw
          (
            append_assoc account.0 (index.0 ++ body.0) rest,
            append_assoc index.0 body.0 rest,
            read_id-id_bytes multisig 32 (index.0 ++ (body.0 ++ rest)) account.1,
            read_int-uint proposal 4 (body.0 ++ rest) index.1,
            read_vector-vec 2048 within.0 rest (subst (λ x. length x ≤ 2048) (sym same) short)
                body.1,
            ap inner same,
            back,
          )
          refl)

-- The bytes of an inner call fit the vector that holds them.
abbrev pub ShortBytes : Call → Type 0
ShortBytes c = (bytes : List ℕ) × (call_bytes c ≡ ok bytes) × (length bytes ≤ 2048)

-- What the reader accepts of a call besides its bytes: payloads of at most 1024 bytes, inner calls of
-- at most 2048, no more levels than there is room for, and a batch at the outermost level only.
unfoldable mutual
  pub Readable : ℕ → Call → Type 0
  Readable zero c = ⊥
  Readable (suc room) (remark payload event) = length payload ≤ 1024
  Readable (suc room) (pay to amount) = 0 ≤ 0
  Readable (suc room) (propose multisig call expiry) = Readable room call × ShortBytes call
  Readable (suc room) (approve multisig proposal call) = Readable room call × ShortBytes call
  Readable (suc room) (batch calls) = (room ≡ 3) × AllReadable room calls

  pub AllReadable : ℕ → Calls → Type 0
  AllReadable room no_calls = 0 ≤ 0
  AllReadable room (more_calls (remark payload event) cs) =
      (length payload ≤ 1024) × AllReadable room cs
  AllReadable room (more_calls (pay to amount) cs) = (0 ≤ 0) × AllReadable room cs
  AllReadable room (more_calls (propose multisig call expiry) cs) =
      (Readable room call × ShortBytes call) × AllReadable room cs
  AllReadable room (more_calls (approve multisig proposal call) cs) =
      (Readable room call × ShortBytes call) × AllReadable room cs
  AllReadable room (more_calls (batch calls) cs) = ⊥

-- Reading a whole call once its bytes are read back.
finish :
    (room : ℕ) (c : Call) {bs : List ℕ}
    → call_bytes c ≡ ok bs
    → length bs ≤ 4096
    → read_call (parse_call room) (read_batch (parse_call room) (room == 3)) (bs ++ [])
      ≡ ok (record { value = c; rest = [] })
    → parse_call (suc room) bs ≡ ok c
unfolding parse_call
finish room c {bs} written short back =
    rw
      (
        le→leb (length bs) 4096 short,
        sym (append-nil bs),
        back,
        written,
        append-nil bs,
        same_text_refl bs,
      )
      refl

outermost_test : (room : ℕ) → room ≡ 3 → (room == 3) ≡ true
outermost_test room h = ground arith

batch_trip :
    (room : ℕ) (calls : Calls) {bs : List ℕ}
    → call_bytes (batch calls) ≡ ok bs
    → room ≡ 3
    → ((rest bytes : List ℕ)
        → calls_bytes calls ≡ ok bytes
        → read_calls (parse_call room) (call_count calls) (bytes ++ rest)
          ≡ ok (record { value = calls; rest = rest }))
    → read_call (parse_call room) (read_batch (parse_call room) (room == 3)) (bs ++ [])
      ≡ ok (record { value = batch calls; rest = [] })
unfolding call_bytes read_call read_batch
batch_trip room calls w outermost back =
    let allowed =
      require_that-eq-ok (leb (call_count calls) max_batch_calls && no_batch calls)
        unsupported_batch _ w in
    let count = >>=-eq-ok (compact (call_count calls)) _ allowed.1 in
    let body = >>=-eq-ok (calls_bytes calls) _ count.2 in
    subst
      (λ bs.
        read_call (parse_call room) (read_batch (parse_call room) (room == 3)) (bs ++ [])
        ≡ ok (record { value = batch calls; rest = [] }))
      (ok-inj body.2)
      (rw
        (
          append_assoc count.0 body.0 [],
          outermost_test room outermost,
          read_compact-compact (call_count calls) (body.0 ++ []) count.1,
          (&&-true (leb (call_count calls) max_batch_calls) (no_batch calls) allowed.0).0,
          back [] body.0 body.1,
        )
        refl)

next_trip :
    (room : ℕ) (c : Call) (cs : Calls) (rest : List ℕ) {bs : List ℕ}
    → ((tail bytes : List ℕ)
        → call_bytes c ≡ ok bytes
        → read_call (parse_call room) no_nesting (bytes ++ tail)
          ≡ ok (record { value = c; rest = tail }))
    → ((bytes : List ℕ)
        → calls_bytes cs ≡ ok bytes
        → read_calls (parse_call room) (call_count cs) (bytes ++ rest)
          ≡ ok (record { value = cs; rest = rest }))
    → calls_bytes (more_calls c cs) ≡ ok bs
    → read_calls (parse_call room) (suc (call_count cs)) (bs ++ rest)
      ≡ ok (record { value = more_calls c cs; rest = rest })
unfolding call_bytes calls_bytes read_calls
next_trip room c cs rest one others w =
    let first = >>=-eq-ok (call_bytes c) _ w in
    let following = >>=-eq-ok (calls_bytes cs) _ first.2 in
    subst
      (λ bs.
        read_calls (parse_call room) (suc (call_count cs)) (bs ++ rest)
        ≡ ok (record { value = more_calls c cs; rest = rest }))
      (ok-inj following.2)
      (rw
        (
          append_assoc first.0 following.0 rest,
          one (following.0 ++ rest) first.0 first.1,
          others following.0 following.1,
        )
        refl)

mutual
  unfolding Readable AllReadable call_bytes read_call read_batch read_calls

  parse_ok :
      (room : ℕ) (c : Call) {bs : List ℕ}
      → Readable room c
      → call_bytes c ≡ ok bs
      → length bs ≤ 4096
      → parse_call room bs ≡ ok c
  parse_ok zero c r w l = absurd r
  parse_ok (suc room) (remark payload event) {bs} r w l = finish room (remark payload event) w l (
      remark_trip (parse_call room) (read_batch (parse_call room) (room == 3)) payload [] event r w)
  parse_ok (suc room) (pay to amount) {bs} r w l =
      finish room (pay to amount) w l
        (pay_trip (parse_call room) (read_batch (parse_call room) (room == 3)) to amount [] w)
  parse_ok (suc room) (propose multisig call expiry) {bs} r w l =
      finish room (propose multisig call expiry) w l (
        propose_trip (parse_call room) (read_batch (parse_call room) (room == 3)) multisig expiry
          call r.1.0 [] r.1.1 r.1.2 (parse_ok room call r.0 r.1.1 (omega (arith, r.1.2))) w)
  parse_ok (suc room) (approve multisig proposal call) {bs} r w l =
      finish room (approve multisig proposal call) w l (
        approve_trip (parse_call room) (read_batch (parse_call room) (room == 3)) multisig proposal
          call r.1.0 [] r.1.1 r.1.2 (parse_ok room call r.0 r.1.1 (omega (arith, r.1.2))) w)
  parse_ok (suc room) (batch calls) {bs} r w l =
      finish room (batch calls) w l
        (batch_trip room calls w r.0 (λ rest bytes written. calls_ok room calls rest r.1 written))

  calls_ok :
      (room : ℕ) (cs : Calls) (rest : List ℕ) {bs : List ℕ}
      → AllReadable room cs
      → calls_bytes cs ≡ ok bs
      → read_calls (parse_call room) (call_count cs) (bs ++ rest)
        ≡ ok (record { value = cs; rest = rest })
  calls_ok room no_calls rest r w =
      subst
        (λ bs.
          read_calls (parse_call room) 0 (bs ++ rest)
          ≡ ok (record { value = no_calls; rest = rest }))
        (ok-inj w) refl
  calls_ok room (more_calls (remark payload event) cs) rest r w =
      next_trip room (remark payload event) cs rest
        (λ tail bytes written.
          remark_trip (parse_call room) no_nesting payload tail event r.0 written)
        (λ bytes written. calls_ok room cs rest r.1 written) w
  calls_ok room (more_calls (pay to amount) cs) rest r w =
      next_trip room (pay to amount) cs rest
        (λ tail bytes written. pay_trip (parse_call room) no_nesting to amount tail written)
        (λ bytes written. calls_ok room cs rest r.1 written) w
  calls_ok room (more_calls (propose multisig call expiry) cs) rest r w =
      next_trip room (propose multisig call expiry) cs rest
        (λ tail bytes written.
          propose_trip (parse_call room) no_nesting multisig expiry call r.0.1.0 tail r.0.1.1
            r.0.1.2 (parse_ok room call r.0.0 r.0.1.1 (omega (arith, r.0.1.2))) written)
        (λ bytes written. calls_ok room cs rest r.1 written) w
  calls_ok room (more_calls (approve multisig proposal call) cs) rest r w =
      next_trip room (approve multisig proposal call) cs rest
        (λ tail bytes written.
          approve_trip (parse_call room) no_nesting multisig proposal call r.0.1.0 tail r.0.1.1
            r.0.1.2 (parse_ok room call r.0.0 r.0.1.1 (omega (arith, r.0.1.2))) written)
        (λ bytes written. calls_ok room cs rest r.1 written) w
  calls_ok room (more_calls (batch calls) cs) rest r w = absurd r

pub parse_call-written :
    (room : ℕ) (bs : List ℕ) {c : Call} → parse_call room bs ≡ ok c → call_bytes c ≡ ok bs
unfolding parse_call
parse_call-written zero bs h = cc
parse_call-written (suc room) bs {c} h =
    let sized = require_that-eq-ok (leb (length bs) 4096) call_limit _ h in
    let call =
      >>=-eq-ok (read_call (parse_call room) (read_batch (parse_call room) (room == 3)) bs) _
        sized.1 in
    let ended = >>=-eq-ok (read_end call.0.rest) _ call.2 in
    let written = >>=-eq-ok (call_bytes call.0.value) _ ended.2 in
    let same = require_that-eq-ok (same_text written.0 bs) non_canonical_call _ written.2 in
    subst (λ x. call_bytes x ≡ ok bs) (ok-inj same.1)
      (written.1 ∙ ap ok (same_text-eq written.0 bs same.0))

-- A call that the reader has room for is read back from its bytes: writing it and reading the bytes
-- gives the same call, at every depth, batches included.
pub parse_call-call_bytes :
    (room : ℕ) (c : Call) {bs : List ℕ}
    → Readable room c
    → call_bytes c ≡ ok bs
    → length bs ≤ 4096
    → parse_call room bs ≡ ok c
parse_call-call_bytes room c r w l = parse_ok room c r w l

-- The bytes of a call are unique: two byte strings that are read as the same call, at whatever depths,
-- are the same.
pub parse_call_unique :
    (room room' : ℕ) (bs bs' : List ℕ) {c : Call}
    → parse_call room bs ≡ ok c
    → parse_call room' bs' ≡ ok c
    → bs ≡ bs'
parse_call_unique room room' bs bs' {c} h h' =
    ok-inj (sym (parse_call-written room bs h) ∙ parse_call-written room' bs' h')
