-- ===== src/Ledger/Order.antt =====
-- The order in which a ledger is replayed does not depend on how the database returns its events.
use mathlib.Core.List.{Permᴰ}
use portfolio_dashboard.Prelude.{◌≡◌, true, List, arith}
use portfolio_dashboard.Prelude.Sort.{sort-perm, Tieless}
use portfolio_dashboard.Double.{Double}
use portfolio_dashboard.Domain.{Transaction}
use portfolio_dashboard.Ledger.{dated_before, replays_before, replay_order}

dated_before_trans :
    {F : Type 0} (a b c : Transaction F)
    → dated_before a b ≡ true
    → dated_before b c ≡ true
    → dated_before a c ≡ true
unfolding dated_before
dated_before_trans a b c h k = ground arith

replays_before_trans :
    {F : Type 0} (a b c : Transaction F)
    → replays_before a b ≡ true
    → replays_before b c ≡ true
    → replays_before a c ≡ true
unfolding replays_before
replays_before_trans a b c h k = ground (arith, dated_before_trans a b c)

module _ {F : Type 0} ⦃d : Double F⦄ where
  pub replay_order-perm :
      {xs ys : List (Transaction F)}
      → Permᴰ xs ys
      → Tieless replays_before xs
      → replay_order xs ≡ replay_order ys
  unfolding replay_order
  replay_order-perm p h = sort-perm replays_before replays_before_trans p h
