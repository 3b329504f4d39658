-- ===== src/Ledger/Dividends.antt =====
-- Dividends are summed in whole cents, so their order does not matter.
use portfolio_dashboard.Prelude.{
  ◌≡◌, ◌^◌, ◌<◌, Bool, true, false, List, [], ◌∷◌, arith, Option, none, some, refl, ap, ◌∙◌,
  if◌then◌else◌,
}
use portfolio_dashboard.Prelude.Sort.{insert, sort}
use portfolio_dashboard.Clock.{Time}
use portfolio_dashboard.Double.{Double, Int64, add64, amount_cents, cents_to_money}
use portfolio_dashboard.Domain.{TxnType, Transaction, is_sell, is_dividend}
use portfolio_dashboard.Ledger.{
  Replay, start, apply_sell, settle, apply_type, apply_event, close_day, replay_event, replay_from,
  replay, replays_before, replay_order, recompute_position,
}

event_cents-sell : (k : TxnType) → is_sell k ≡ true → is_dividend k ≡ false
unfolding is_sell is_dividend
event_cents-sell TxnType.sell h = refl
event_cents-sell _ h = ground arith

module _ {F : Type 0} ⦃d : Double F⦄ where
  open d use {lt}

  -- The cents that one event adds to the total.
  abbrev pub event_cents : Transaction F → Int64
  event_cents t = if is_dividend t.type then amount_cents t.amount else 0

  -- The cents of a ledger's dividends, in the order of the list.
  abbrev pub total_cents : List (Transaction F) → Int64
  total_cents [] = 0
  total_cents (t ∷ ts) = add64 (event_cents t) (total_cents ts)

  total_cents-insert :
      (t : Transaction F) (ts : List (Transaction F))
      → total_cents (insert replays_before t ts) ≡ add64 (event_cents t) (total_cents ts)
  unfolding insert
  total_cents-insert t [] = refl
  total_cents-insert t (u ∷ ts) = ground (arith, total_cents-insert t ts)

  total_cents-replay_order :
      (ts : List (Transaction F)) → total_cents (replay_order ts) ≡ total_cents ts
  unfolding replay_order sort
  total_cents-replay_order [] = refl
  total_cents-replay_order (t ∷ ts) =
      total_cents-insert t (sort replays_before ts)
      ∙ ap (add64 (event_cents t)) (total_cents-replay_order ts)

  cents-settle :
      (e : Bool) (ws : List (Transaction F)) (s : Replay F)
      → (settle e ws s).0.dividend_cents ≡ s.dividend_cents
  unfolding settle apply_sell
  cents-settle e [] s = refl
  cents-settle e (w ∷ ws) s = ground (arith, cents-settle e ws (apply_sell w s))

  cents-apply_type :
      (k : TxnType) (t : Transaction F) (s : Replay F)
      → s.dividend_cents < 2 ^ 64
      → (apply_type k t s).dividend_cents
        ≡ add64 s.dividend_cents (if is_dividend k then amount_cents t.amount else 0)
  unfolding apply_type apply_sell is_dividend
  cents-apply_type TxnType.dividend t s h = refl
  cents-apply_type _ t s h = ground arith

  cents-apply_event :
      (t : Transaction F) (s : Replay F)
      → s.dividend_cents < 2 ^ 64
      → (apply_event t s).dividend_cents ≡ add64 s.dividend_cents (event_cents t)
  unfolding apply_event
  cents-apply_event t s h = cents-apply_type t.type t s h

  cents-replay_event :
      (t : Transaction F) (st : Replay F × List (Transaction F))
      → st.0.dividend_cents < 2 ^ 64
      → (replay_event t st).0.dividend_cents ≡ add64 st.0.dividend_cents (event_cents t)
  unfolding replay_event
  cents-replay_event t (s, ws) h = ground (
    arith,
    event_cents-sell t.type,
    cents-settle false ws (apply_event t s),
    cents-apply_event t s h,
  )

  cents-close_day :
      (last : Option Time) (date : Time) (st : Replay F × List (Transaction F))
      → (close_day last date st).0.dividend_cents ≡ st.0.dividend_cents
  unfolding close_day
  cents-close_day none date (s, ws) = refl
  cents-close_day (some last) date (s, ws) = ground (arith, cents-settle true ws s)

  cents-replay_from :
      (last : Option Time) (ts : List (Transaction F)) (st : Replay F × List (Transaction F))
      → st.0.dividend_cents < 2 ^ 64
      → (replay_from last ts st).0.dividend_cents ≡ add64 st.0.dividend_cents (total_cents ts)
  unfolding replay_from
  cents-replay_from last [] st h = omega arith
  cents-replay_from last (t ∷ ts) st h =
      let closed = close_day last t.date st in
      let next = replay_event t closed in
      omega (
        arith,
        cents-replay_from (some t.date) ts next (
            omega
              (arith, cents-replay_event t closed (omega (arith, cents-close_day last t.date st)))),
        cents-replay_event t closed (omega (arith, cents-close_day last t.date st)),
        cents-close_day last t.date st,
      )

  total_cents-lt : (ts : List (Transaction F)) → total_cents ts < 2 ^ 64
  total_cents-lt [] = omega arith
  total_cents-lt (t ∷ ts) = omega arith

  cents-replay : (ts : List (Transaction F)) → (replay ts).dividend_cents ≡ total_cents ts
  unfolding replay
  cents-replay ts =
      let st = replay_from none ts (start, []) in
      omega (
        arith,
        cents-settle true st.1 st.0,
        cents-replay_from none ts (start, []) (omega arith),
        total_cents-lt ts,
      )

  -- Whatever the order of a ledger's events, its total dividends are the money value of the sum, on
  -- `int64`, of its dividends in cents; no other event counts.
  pub recompute_position-total_dividends :
      (txns : List (Transaction F))
      → (recompute_position txns).0.total_dividends ≡ cents_to_money (total_cents txns)
  unfolding recompute_position
  recompute_position-total_dividends txns =
      ap cents_to_money (cents-replay (replay_order txns) ∙ total_cents-replay_order txns)
