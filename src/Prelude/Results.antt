-- ===== src/Prelude/Results.antt =====
-- A call that returns or throws, and the assertion `requireThat` that throws its message.
use mathlib.Core.Path.{◌≡◌, refl}
use mathlib.Core.Bool.{Bool, true, false}

-- `err message` stands for a thrown exception, `ok value` for a normal return.
pub data Result {ℓ} (Message : Type 0) (Value : Type ℓ) : Type ℓ where
  err : Message → Result Message Value
  ok : Value → Result Message Value

infixl 5 ◌>>=◌ ◌>>◌
-- The next statement runs on a value that was returned, and a throw ends the call.
abbrev pub ◌>>=◌ {κ ℓ} :
    {M : Type 0} {V : Type κ} {W : Type ℓ} → Result M V → (V → Result M W) → Result M W
call >>= next = elim call [ err message ↦ err message | ok value ↦ next value ]

abbrev pub ◌>>◌ {ℓ} : {M : Type 0} {W : Type ℓ} → Result M (Unit {0}) → Result M W → Result M W
call >> next = call >>= λ done. next

abbrev pub require_that : {M : Type 0} → Bool → M → Result M (Unit {0})
require_that test message = elim test [ true ↦ ok tt | _ ↦ err message ]

-- A block that returned did so in each of its statements.
pub >>=-eq-ok {κ ℓ} :
    {M : Type 0} {V : Type κ} {W : Type ℓ} (call : Result M V) (next : V → Result M W) {w : W}
    → (call >>= next) ≡ ok w
    → (v : V) × (call ≡ ok v) × (next v ≡ ok w)
>>=-eq-ok (ok v) next h = (v, refl, h)
>>=-eq-ok (err m) next h = cc

-- A block that returned passed the test it begins with.
pub require_that-eq-ok {ℓ} :
    {M : Type 0} {W : Type ℓ} (test : Bool) (message : M) (rest : Result M W) {w : W}
    → (require_that test message >> rest) ≡ ok w
    → (test ≡ true) × (rest ≡ ok w)
require_that-eq-ok true message rest h = (refl, h)
require_that-eq-ok false message rest h = cc

pub ok-inj {ℓ} : {M : Type 0} {V : Type ℓ} {v w : V} → ◌≡◌ {A = Result M V} (ok v) (ok w) → v ≡ w
ok-inj h = cc

-- An assertion that returned was true.
pub require_that-ok :
    {M : Type 0} (test : Bool) (message : M) {done : Unit {0}}
    → require_that test message ≡ ok done
    → test ≡ true
require_that-ok true message h = refl
require_that-ok false message h = cc
