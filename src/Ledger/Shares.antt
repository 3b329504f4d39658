-- ===== src/Ledger/Shares.antt =====
-- The number of shares held never falls below zero.
use portfolio_dashboard.Prelude.{◌≡◌, true, false, Bool, List, [], ◌∷◌, arith, Option, none, some}
use portfolio_dashboard.Clock.{Time}
use portfolio_dashboard.Double.{Double, nought}
use portfolio_dashboard.DoubleLaws.{IsSigned}
use portfolio_dashboard.Domain.{TxnType, Transaction}
use portfolio_dashboard.Ledger.{
  Replay, start, apply_sell, settle, apply_type, apply_event, close_day, replay_event, replay_from,
  replay, replay_order, recompute_position,
}

module _ {F : Type 0} ⦃d : Double F⦄ (laws : IsSigned F) where
  open d use {lt}
  open laws use {lt_irrefl, add_nonneg, sub_nonneg, mul_nonneg}

  abbrev IsHeld : Replay F → Type 0
  IsHeld s = lt s.total_qty nought ≡ false

  apply_sell-IsHeld : (t : Transaction F) (s : Replay F) → IsHeld s → IsHeld (apply_sell t s)
  unfolding apply_sell
  apply_sell-IsHeld t s h = ground (
    arith,
    sub_nonneg s.total_qty t.quantity,
    sub_nonneg s.total_qty s.total_qty,
    lt_irrefl s.total_qty,
  )

  settle-IsHeld :
      (e : Bool) (ws : List (Transaction F)) (s : Replay F) → IsHeld s → IsHeld (settle e ws s).0
  unfolding settle
  settle-IsHeld e [] s h = h
  settle-IsHeld e (w ∷ ws) s h =
      ground (arith, settle-IsHeld e ws (apply_sell w s) (apply_sell-IsHeld w s h))

  apply_type-IsHeld :
      (k : TxnType) (t : Transaction F) (s : Replay F) → IsHeld s → IsHeld (apply_type k t s)
  unfolding apply_type
  apply_type-IsHeld TxnType.sell t s h = apply_sell-IsHeld t s h
  apply_type-IsHeld _ t s h =
      ground (arith, add_nonneg s.total_qty t.quantity h, mul_nonneg s.total_qty t.ratio h)

  replay_event-IsHeld :
      (t : Transaction F) (s : Replay F) (ws : List (Transaction F))
      → IsHeld s
      → IsHeld (replay_event t (s, ws)).0
  unfolding replay_event apply_event
  replay_event-IsHeld t s ws h =
      ground
        (arith, settle-IsHeld false ws (apply_type t.type t s) (apply_type-IsHeld t.type t s h))

  close_day-IsHeld :
      (last : Option Time) (date : Time) (s : Replay F) (ws : List (Transaction F))
      → IsHeld s
      → IsHeld (close_day last date (s, ws)).0
  unfolding close_day
  close_day-IsHeld none date s ws h = h
  close_day-IsHeld (some last) date s ws h = ground (arith, settle-IsHeld true ws s h)

  replay_from-IsHeld :
      (last : Option Time) (ts : List (Transaction F)) (st : Replay F × List (Transaction F))
      → IsHeld st.0
      → IsHeld (replay_from last ts st).0
  unfolding replay_from
  replay_from-IsHeld last [] st h = h
  replay_from-IsHeld last (t ∷ ts) st h =
      replay_from-IsHeld (some t.date) ts _
        (replay_event-IsHeld t _ _ (close_day-IsHeld last t.date st.0 st.1 h))

  replay-IsHeld : (ts : List (Transaction F)) → IsHeld (replay ts)
  unfolding replay
  replay-IsHeld ts =
      let st = replay_from none ts (start, []) in
      settle-IsHeld true st.1 st.0 (replay_from-IsHeld none ts (start, []) (lt_irrefl nought))

  -- Under the sign laws of IEEE arithmetic the position of any ledger, oversold or not, holds no
  -- negative number of shares.
  pub recompute_position_nonneg :
      (txns : List (Transaction F)) → lt (recompute_position txns).0.stocks_owned nought ≡ false
  unfolding recompute_position
  recompute_position_nonneg txns = replay-IsHeld (replay_order txns)
