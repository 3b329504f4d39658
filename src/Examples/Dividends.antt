-- ===== src/Examples/Dividends.antt =====
-- Two dividends of one holding, and rows before, on and after their days.
use portfolio_dashboard.Prelude.{
  ◌*◌, ◌≡◌, refl, List, [], ◌∷◌, Option, none, some, string_eq, nat_eq,
}
use portfolio_dashboard.Prelude.Assoc.{lookup, insert}
use portfolio_dashboard.Prelude.Sort.{sort}
use portfolio_dashboard.Clock.{Time, day_length, utc_date}
use portfolio_dashboard.Double.{amount_cents, cents_to_money}
use portfolio_dashboard.Domain.{TxnType, Transaction}
use portfolio_dashboard.Received.{
  DividendHistoryPoint, DividendDay, dividend_overlay, dividend_walk, advance_dividends, receive,
  receive_on, dividend_day, symbols_of,
}
use portfolio_dashboard.Examples.Whole.{ℤ, pos, whole_double}
use portfolio_dashboard.Examples.Ledgers.{event, paid}
use portfolio_dashboard.Examples.Services.{tcs}

abbrev dividends : List (Transaction ℤ)
dividends = paid ∷ event 9 TxnType.dividend 20 (pos 0) (pos 30) ∷ []

abbrev days : List Time
days = 20 * day_length ∷ 10 * day_length ∷ 17 * day_length ∷ []

abbrev rupees : Option (DividendDay ℤ) → Option (DividendHistoryPoint ℤ)
rupees none = none
rupees (some day) = lookup "INR" day.by_currency

-- Day 17 is after the first dividend, and day 20 is the second one's.
received :
    (rupees (lookup 10 (dividend_overlay dividends (tcs ∷ []) days)) ≡ none)
    × (rupees (lookup 17 (dividend_overlay dividends (tcs ∷ []) days))
        ≡ some (record { to_date = pos 50; on_day = pos 0 }))
    × (rupees (lookup 20 (dividend_overlay dividends (tcs ∷ []) days))
        ≡ some (record { to_date = pos 80; on_day = pos 30 }))
unfolding dividend_overlay dividend_walk advance_dividends receive receive_on dividend_day
    symbols_of lookup insert utc_date sort amount_cents cents_to_money
received = (refl, refl, refl)
