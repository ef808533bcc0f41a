-- ===== src/Fees/Roles.antt =====
-- Distinctness of the fee roles, as a family of facts on the list of the accounts that hold one.
use qlyphs_wallet.Prelude.{
  ◌≡◌, ◌≢◌, refl, none, some, Option, true, false, List, [], ◌∷◌, ok, arith, ◌==◌, any_of, ==-ne,
}
use qlyphs_wallet.Operations.{HexId, zero_id, qlyphs_fee_account}
use qlyphs_wallet.Fees.State.{FeeState, account_of, excluded}
use qlyphs_wallet.Fees.Check.{roster, accounts, no_repeats, roles_ok}

-- Both directions of an inequality, so that a proof finds the one it needs.
abbrev pub Apart : HexId → HexId → Type 0
Apart a b = (a ≢ b) × (b ≢ a)

abbrev pub Out : HexId → List HexId → Type 0
Out a [] = Unit {0}
Out a (b ∷ bs) = Apart a b × Out a bs

abbrev pub Distinct : List HexId → Type 0
Distinct [] = Unit {0}
Distinct (a ∷ as') = Out a as' × Distinct as'

-- Two roles, either of which may be vacant.
abbrev pub ApartRoles : Option HexId → Option HexId → Type 0
ApartRoles none y = Unit {0}
ApartRoles (some a) none = Unit {0}
ApartRoles (some a) (some b) = Apart a b

pub ApartRoles-none : (x : Option HexId) → ApartRoles x none
ApartRoles-none none = tt
ApartRoles-none (some a) = tt

pub ApartRoles-sym : (x y : Option HexId) → ApartRoles x y → ApartRoles y x
ApartRoles-sym none y h = ApartRoles-none y
ApartRoles-sym (some a) none h = tt
ApartRoles-sym (some a) (some b) h = (h.1, h.0)

abbrev pub Usable : Option HexId → Type 0
Usable x = ApartRoles x (some zero_id) × ApartRoles x (some qlyphs_fee_account)

-- The roles of a fee state, current and pending, pairwise.
pub record Roster (o : Option HexId) (g s : HexId) (po pg : Option HexId) : Type 0 where
  pub usable_o : Usable o
  pub usable_g : Usable (some g)
  pub usable_s : Usable (some s)
  pub usable_po : Usable po
  pub usable_pg : Usable pg
  pub o_g : ApartRoles o (some g)
  pub o_s : ApartRoles o (some s)
  pub o_po : ApartRoles o po
  pub o_pg : ApartRoles o pg
  pub g_s : ApartRoles (some g) (some s)
  pub g_po : ApartRoles (some g) po
  pub g_pg : ApartRoles (some g) pg
  pub s_po : ApartRoles (some s) po
  pub s_pg : ApartRoles (some s) pg
  pub po_pg : ApartRoles po pg

Out-any_of : (a : HexId) (xs : List HexId) → any_of (λ b. a == b) xs ≡ false → Out a xs
Out-any_of a [] h = tt
Out-any_of a (b ∷ bs) h = ((λ e. ground arith, λ e. ground arith), Out-any_of a bs (ground arith))

any_of-Out : (a : HexId) (xs : List HexId) → Out a xs → any_of (λ b. a == b) xs ≡ false
any_of-Out a [] h = refl
any_of-Out a (b ∷ bs) h = rw (==-ne a b h.0.0) (any_of-Out a bs h.1)

Distinct-no_repeats : (xs : List HexId) → no_repeats xs ≡ true → Distinct xs
Distinct-no_repeats [] h = tt
Distinct-no_repeats (a ∷ as') h =
    (Out-any_of a as' (ground arith), Distinct-no_repeats as' (ground arith))

no_repeats-Distinct : (xs : List HexId) → Distinct xs → no_repeats xs ≡ true
no_repeats-Distinct [] h = refl
no_repeats-Distinct (a ∷ as') h = rw (any_of-Out a as' h.0) (no_repeats-Distinct as' h.1)

-- `excluded` keeps an account apart from all that it names.
abbrev pub ApartAll : HexId → List (Option HexId) → Type 0
ApartAll a [] = Usable (some a)
ApartAll a (x ∷ xs) = ApartRoles x (some a) × ApartAll a xs

pub excluded-ApartAll :
    (a : HexId) (xs : List (Option HexId)) {u : Unit {0}} → excluded a xs ≡ ok u → ApartAll a xs
unfolding excluded
excluded-ApartAll a [] h =
    (((λ e. ground arith), (λ e. ground arith)), ((λ e. ground arith), (λ e. ground arith)))
excluded-ApartAll a (none ∷ xs) h = (tt, excluded-ApartAll a xs (ground arith))
excluded-ApartAll a (some b ∷ xs) h =
    (((λ e. ground arith), (λ e. ground arith)), excluded-ApartAll a xs (ground arith))

zero_id-fee_account : Apart zero_id qlyphs_fee_account
zero_id-fee_account = ((λ e. omega arith), (λ e. omega arith))

Roster-Distinct :
    (o po pg : Option HexId) (g s : HexId)
    → Roster o g s po pg
    → Distinct (zero_id ∷ qlyphs_fee_account ∷ roster o g s po pg)
Roster-Distinct none none none g s r = assumption zero_id-fee_account
Roster-Distinct none none (some c) g s r = assumption zero_id-fee_account
Roster-Distinct none (some b) none g s r = assumption zero_id-fee_account
Roster-Distinct none (some b) (some c) g s r = assumption zero_id-fee_account
Roster-Distinct (some a) none none g s r = assumption zero_id-fee_account
Roster-Distinct (some a) none (some c) g s r = assumption zero_id-fee_account
Roster-Distinct (some a) (some b) none g s r = assumption zero_id-fee_account
Roster-Distinct (some a) (some b) (some c) g s r = assumption zero_id-fee_account

Distinct-Roster :
    (o po pg : Option HexId) (g s : HexId)
    → Distinct (zero_id ∷ qlyphs_fee_account ∷ roster o g s po pg)
    → Roster o g s po pg
Distinct-Roster none none none g s d = assumption
Distinct-Roster none none (some c) g s d = assumption
Distinct-Roster none (some b) none g s d = assumption
Distinct-Roster none (some b) (some c) g s d = assumption
Distinct-Roster (some a) none none g s d = assumption
Distinct-Roster (some a) none (some c) g s d = assumption
Distinct-Roster (some a) (some b) none g s d = assumption
Distinct-Roster (some a) (some b) (some c) g s d = assumption

abbrev pub HasRoster : FeeState → Type 0
HasRoster f =
    Roster f.operator f.guardian f.sentinel (account_of f.pending_operator)
      (account_of f.pending_guardian)

-- The test of the source says exactly that the roles are apart and usable.
pub roles_ok-HasRoster : (f : FeeState) → roles_ok f ≡ true → HasRoster f
unfolding roles_ok
roles_ok-HasRoster f h =
    Distinct-Roster f.operator (account_of f.pending_operator) (account_of f.pending_guardian)
      f.guardian f.sentinel
      (
        (zero_id-fee_account, Out-any_of zero_id (accounts f) (ground arith)),
        (
          Out-any_of qlyphs_fee_account (accounts f) (ground arith),
          Distinct-no_repeats (accounts f) (ground arith),
        ),
      )

pub HasRoster-roles_ok : (f : FeeState) → HasRoster f → roles_ok f ≡ true
unfolding roles_ok
HasRoster-roles_ok f r =
    let d =
      Roster-Distinct f.operator (account_of f.pending_operator) (account_of f.pending_guardian)
        f.guardian f.sentinel r in
    rw (
      any_of-Out zero_id (accounts f) d.0.1,
      any_of-Out qlyphs_fee_account (accounts f) d.1.0,
      no_repeats-Distinct (accounts f) d.1.1,
    )
