-- ===== src/Examples/Ledgers.antt =====
-- Ledgers: buys, sells, a same-day sell before its buy, an oversold one.
use portfolio_dashboard.Prelude.{ℕ, ◌*◌, ◌≡◌, refl, false, none, some, List, [], ◌∷◌}
use portfolio_dashboard.Prelude.Sort.{sort}
use portfolio_dashboard.Clock.{day_length, utc_date}
use portfolio_dashboard.Errors.{oversell}
use portfolio_dashboard.Double.{nought, amount_cents, cents_to_money}
use portfolio_dashboard.Domain.{TxnType, Transaction, is_sell}
use portfolio_dashboard.Ledger.{
  start, replays_before, replay_order, apply_type, apply_event, replay, position_of,
  recompute_position,
}
use portfolio_dashboard.Ledger.Shares.{recompute_position_nonneg}
use portfolio_dashboard.Ledger.Plain.{recompute_position-covered, plain_replay}
use portfolio_dashboard.Ledger.Dividends.{recompute_position-total_dividends, total_cents}
use portfolio_dashboard.Examples.Whole.{ℤ, pos, whole_double, Whole-IsSigned}

-- An event of day `day`, entered as the `id`-th.
abbrev pub event : ℕ → TxnType → ℕ → ℤ → ℤ → Transaction ℤ
event id type day quantity amount = record {
  id = id;
  user_id = 7;
  holding_id = 1;
  type = type;
  date = day * day_length;
  quantity = quantity;
  amount = amount;
  ratio = pos 2;
  realized_seed = pos 0;
  opening_date = none;
  currency = "INR";
  import_meta = none;
  notes = "";
  created_at = id;
  updated_at = id;
}

abbrev pub bought : Transaction ℤ
bought = event 1 TxnType.buy 10 (pos 10) (pos 1000)

abbrev pub sold : Transaction ℤ
sold = event 2 TxnType.sell 20 (pos 4) (pos 600)

abbrev pub paid : Transaction ℤ
paid = event 3 TxnType.dividend 15 (pos 0) (pos 50)

abbrev halved : Transaction ℤ
halved = event 4 TxnType.split 16 (pos 0) (pos 0)

abbrev sold_first : Transaction ℤ
sold_first = event 5 TxnType.sell 10 (pos 3) (pos 300)

abbrev trades : List (Transaction ℤ)
trades = sold ∷ paid ∷ halved ∷ bought ∷ []

-- After the split 20 shares cost 1000, so four of them cost 200.
trades_position : recompute_position trades ≡ (
  record {
    stocks_owned = pos 16;
    avg_cost_price = pos 50;
    realized_pnl = pos 400;
    total_dividends = pos 50;
  },
  none,
)
unfolding recompute_position replay_order sort replays_before replay cents_to_money apply_event
    apply_type is_sell amount_cents utc_date
trades_position = refl

-- A sell waits for the buy of its own day.
same_day :
    (recompute_position (sold_first ∷ event 6 TxnType.buy 10 (pos 3) (pos 270) ∷ [])).1 ≡ none
unfolding recompute_position replay_order sort replays_before replay cents_to_money apply_event
    apply_type is_sell utc_date
same_day = refl

-- But not for a later one.
oversold_day :
    (recompute_position (sold_first ∷ event 6 TxnType.buy 11 (pos 3) (pos 270) ∷ [])).1
    ≡ some oversell
unfolding recompute_position replay_order sort replays_before replay cents_to_money apply_event
    apply_type is_sell utc_date
oversold_day = refl

recompute_position-covered_example :
    recompute_position trades ≡ (position_of (plain_replay (replay_order trades) start), none)
unfolding replay_order sort replays_before apply_event apply_type is_sell
recompute_position-covered_example = recompute_position-covered trades refl

recompute_position-total_dividends_example :
    (recompute_position trades).0.total_dividends ≡ cents_to_money (total_cents trades)
recompute_position-total_dividends_example = recompute_position-total_dividends trades

recompute_position_nonneg_example :
    whole_double.lt (recompute_position (sold_first ∷ [])).0.stocks_owned nought ≡ false
recompute_position_nonneg_example = recompute_position_nonneg Whole-IsSigned (sold_first ∷ [])
