-- ===== src/Heal/AsOf.antt =====
-- Which events of a ledger are in effect on a day.
use portfolio_dashboard.Prelude.{◌≡◌, ◌≤◌, true, List, [], ◌∷◌, arith, refl}
use portfolio_dashboard.Clock.{Time}
use portfolio_dashboard.Domain.{Transaction}
use portfolio_dashboard.Heal.{in_effect, as_of_ledger}

module _ {F : Type 0} where
  in_effect_mono :
      (early late : Time) (t : Transaction F)
      → early ≤ late
      → in_effect early t ≡ true
      → in_effect late t ≡ true
  unfolding in_effect
  in_effect_mono early late t h e = ground arith

  -- The ledger as of an earlier cutoff is the same whether it is taken from the whole ledger or from the
  -- ledger as of a later one.
  pub as_of_ledger-as_of_ledger :
      (early late : Time) (ts : List (Transaction F))
      → early ≤ late
      → as_of_ledger early (as_of_ledger late ts) ≡ as_of_ledger early ts
  unfolding as_of_ledger
  as_of_ledger-as_of_ledger early late [] h = refl
  as_of_ledger-as_of_ledger early late (t ∷ ts) h =
      ground (arith, as_of_ledger-as_of_ledger early late ts h, in_effect_mono early late t h)
