-- ===== src/Fees/Moves.antt =====
-- The moves of the fee roles: each keeps the roles apart.
use qlyphs_wallet.Prelude.{none, some, Option, [], ◌∷◌}
use qlyphs_wallet.Operations.{HexId}
use qlyphs_wallet.Fees.Roles.{Apart, ApartRoles-none, ApartRoles-sym, ApartAll, Roster, Usable}

-- A seat that is left empty.
Usable-none : Usable none
Usable-none = (tt, tt)

module _ (o po pg : Option HexId) (g s a : HexId) where
  pub Roster-set_operator :
      Roster o g s po pg → ApartAll a (o ∷ some g ∷ some s ∷ pg ∷ []) → Roster o g s (some a) pg
  Roster-set_operator r out = assumption (ApartRoles-sym pg (some a) out.1.1.1.0)

  pub Roster-set_guardian :
      Roster o g s po pg → Apart a g → ApartAll a (o ∷ some s ∷ po ∷ []) → Roster o g s po (some a)
  Roster-set_guardian r apart out = assumption

  pub Roster-set_sentinel :
      Roster o g s po pg → ApartAll a (o ∷ some g ∷ some s ∷ po ∷ pg ∷ []) → Roster o g a po pg
  Roster-set_sentinel r out =
      assumption (ApartRoles-sym po (some a) out.1.1.1.0, ApartRoles-sym pg (some a) out.1.1.1.1.0)

module _ (o po pg : Option HexId) (g s : HexId) where
  pub Roster-abort_guardian : Roster o g s po pg → Roster o g s po none
  Roster-abort_guardian r = assumption (Usable-none, ApartRoles-none o, ApartRoles-none po)

  pub Roster-freeze : Roster o g s po pg → Roster none g s none pg
  Roster-freeze r = assumption Usable-none

module _ (o p : Option HexId) (g s a : HexId) where
  -- A role that is due takes the place of its holder.
  pub Roster-install_guardian : Roster o g s p (some a) → Roster o a s p none
  Roster-install_guardian r =
      assumption
        (Usable-none, ApartRoles-none o, ApartRoles-none p, ApartRoles-sym p (some a) r.po_pg)

  pub Roster-install_operator : Roster o g s (some a) p → Roster (some a) g s none p
  Roster-install_operator r = assumption Usable-none
