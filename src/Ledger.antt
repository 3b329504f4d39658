-- ===== src/Ledger.antt =====
-- services/ledger.go: the average-cost replay of a holding's ledger.
pub mod Order
pub mod Shares
pub mod Plain
pub mod Dividends
use portfolio_dashboard.Prelude.{
  ℕ, ◌≡◌, Bool, true, false, xor, ◌&&◌, ◌||◌, Option, none, some, List, [], ◌∷◌, ◌++◌,
  if◌then◌else◌, ltb, nat_beq,
}
use portfolio_dashboard.Prelude.Sort.{sort}
use portfolio_dashboard.Double.{
  Double, Int64, add64, nought, le, is_pos, amount_cents, cents_to_money,
}
use portfolio_dashboard.Clock.{Time, utc_date}
use portfolio_dashboard.Errors.{Error, oversell}
use portfolio_dashboard.Domain.{TxnType, Transaction, is_opening, is_sell}

pub record Position (F : Type 0) : Type 0 where
  pub stocks_owned : F
  pub avg_cost_price : F
  pub realized_pnl : F
  pub total_dividends : F

-- The variables that the replay's closures share.
pub record Replay (F : Type 0) : Type 0 where
  pub realized_pnl : F
  pub total_qty : F
  pub total_basis : F
  pub dividend_cents : Int64
  pub oversold : Bool

-- The trade date, then the insertion order.
unfoldable pub dated_before : {F : Type 0} → Transaction F → Transaction F → Bool
dated_before s t =
    if nat_beq s.date t.date then ltb s.created_at t.created_at else ltb s.date t.date

-- The comparator of `sort.SliceStable`.
unfoldable pub replays_before : {F : Type 0} → Transaction F → Transaction F → Bool
unfolding is_opening dated_before xor
replays_before s t =
    let opening_s = is_opening s.type in
    let opening_t = is_opening t.type in
    if xor opening_s opening_t then opening_s else dated_before s t

unfoldable pub replay_order : {F : Type 0} → List (Transaction F) → List (Transaction F)
replay_order = sort replays_before

module _ {F : Type 0} ⦃d : Double F⦄ where
  open d use {literal, add, sub, mul, div, lt}

  abbrev pub start : Replay F
  start = record {
    realized_pnl = nought;
    total_qty = nought;
    total_basis = nought;
    dividend_cents = 0;
    oversold = false;
  }

  -- The closure `sell`: shares beyond those held are not removed, and the sale is remembered.
  unfoldable pub apply_sell : Transaction F → Replay F → Replay F
  apply_sell t s =
      let avg = if is_pos s.total_qty then div s.total_basis s.total_qty else nought in
      let over = lt s.total_qty t.quantity in
      let qty = if over then s.total_qty else t.quantity in
      record s {
        realized_pnl = add s.realized_pnl (sub t.amount (mul avg qty));
        total_qty = sub s.total_qty qty;
        total_basis = sub s.total_basis (mul avg qty);
        oversold = over || s.oversold;
      }

  -- The closure `settle`, with the sells that still wait.
  unfoldable pub settle : Bool → List (Transaction F) → Replay F → Replay F × List (Transaction F)
  settle end_of_day [] s = (s, [])
  settle end_of_day (w ∷ ws) s =
      let rest = settle end_of_day ws (apply_sell w s) in
      if end_of_day || le w.quantity s.total_qty then rest else (s, w ∷ ws)

  add_shares : Transaction F → Replay F → Replay F
  add_shares t s =
      if is_pos t.quantity
      then record s {
        total_qty = add s.total_qty t.quantity;
        total_basis = add s.total_basis t.amount;
      }
      else s

  -- The cases of the `switch`.
  unfoldable pub apply_type : TxnType → Transaction F → Replay F → Replay F
  unfolding apply_sell add_shares
  apply_type TxnType.opening t s =
      let s' = add_shares t s in record s' { realized_pnl = add s'.realized_pnl t.realized_seed }
  apply_type TxnType.buy t s = add_shares t s
  apply_type TxnType.sell t s = apply_sell t s
  apply_type TxnType.dividend t s = record s {
    dividend_cents = add64 s.dividend_cents (amount_cents t.amount);
  }
  apply_type TxnType.merger t s = s
  apply_type TxnType.unknown t s = s
  apply_type _ t s = if is_pos t.ratio then record s { total_qty = mul s.total_qty t.ratio } else s

  unfoldable pub apply_event : Transaction F → Replay F → Replay F
  apply_event t s = apply_type t.type t s

  -- The end of the previous event's day, if this event falls on another.
  unfoldable pub close_day :
      Option Time → Time → Replay F × List (Transaction F) → Replay F × List (Transaction F)
  close_day none date (s, ws) = (s, ws)
  close_day (some last) date (s, ws) =
      if nat_beq (utc_date date) (utc_date last) then (s, ws) else settle true ws s

  -- One round of the loop: a sell that exceeds the shares held joins the queue.
  unfoldable pub replay_event :
      Transaction F → Replay F × List (Transaction F) → Replay F × List (Transaction F)
  replay_event t (s, ws) =
      if is_sell t.type && lt s.total_qty t.quantity
      then (s, ws ++ (t ∷ []))
      else settle false ws (apply_event t s)

  -- The loop over the ordered ledger, with the date of the event before.
  unfoldable pub replay_from :
      Option Time
      → List (Transaction F)
      → Replay F × List (Transaction F)
      → Replay F × List (Transaction F)
  unfolding close_day replay_event
  replay_from last [] st = st
  replay_from last (t ∷ ts) st =
      replay_from (some t.date) ts (replay_event t (close_day last t.date st))

  -- The loop and the last `settle`.
  unfoldable pub replay : List (Transaction F) → Replay F
  unfolding replay_from settle
  replay ordered = let (s, ws) = replay_from none ordered (start, []) in (settle true ws s).0

  unfoldable pub position_of : Replay F → Position F
  position_of s = record {
    stocks_owned = s.total_qty;
    avg_cost_price = if is_pos s.total_qty then div s.total_basis s.total_qty else nought;
    realized_pnl = s.realized_pnl;
    total_dividends = cents_to_money s.dividend_cents;
  }

  -- `RecomputePosition`: the position, and the error if a day ends short of shares.
  unfoldable pub recompute_position : List (Transaction F) → Position F × Option Error
  unfolding position_of
  recompute_position txns =
      let s = replay (replay_order txns) in
      (position_of s, if s.oversold then some oversell else none)
