-- ===== src/Received/AsOf.antt =====
-- The walk of the overlay against the dividends that each date has by itself.
use portfolio_dashboard.Prelude.{
  ◌≤◌, none, some, List, [], ◌∷◌, if◌then◌else◌, ltb, ℕ, suc, String, nat_eq, nat_beq, string_eq,
}
use portfolio_dashboard.Prelude.Assoc.{Assoc, lookup, insert}
use portfolio_dashboard.Clock.{Time, utc_date, day_number}
use portfolio_dashboard.Double.{Double, Int64, add64, amount_cents}
use portfolio_dashboard.Domain.{ObjectId, Transaction}
use portfolio_dashboard.Received.{
  Received, StockKey, stock_key_eq, cents_at, DividendDay, dividend_day, nothing_received,
}

-- Different days in ascending order, and none before a given time.
abbrev pub IsIncreasing : Time → List Time → Type 0
IsIncreasing from [] = Unit
IsIncreasing from (day ∷ days) = (from ≤ utc_date day) × IsIncreasing (suc (utc_date day)) days

module _ {F : Type 0} ⦃d : Double F⦄ (symbols : Assoc ObjectId String) where
  -- What is received by the end of a day, whatever comes between.
  unfoldable pub received_by : Time → List (Transaction F) → Received → Received
  unfolding amount_cents insert lookup
  received_by day [] r = r
  received_by day (t ∷ ts) r =
      let cents = amount_cents t.amount in
      let stock : StockKey = record {
        currency = t.currency;
        symbol = elim (lookup t.holding_id symbols) [ none ↦ "" | some symbol ↦ symbol ];
      } in
      received_by day ts (
        if ltb day (utc_date t.date) then r else record {
          to_date = insert t.currency (add64 (cents_at t.currency r.to_date) cents) r.to_date;
          by_stock = insert stock (add64 (cents_at stock r.by_stock) cents) r.by_stock;
        })

  -- What is received on a day.
  unfoldable pub received_on : Time → List (Transaction F) → Assoc String Int64 → Assoc String Int64
  unfolding amount_cents insert
  received_on day [] o = o
  received_on day (t ∷ ts) o = received_on day ts (
      if nat_beq (utc_date t.date) day
      then insert t.currency (add64 (cents_at t.currency o) (amount_cents t.amount)) o
      else o)

  -- The overlay with each date's sums taken from the whole list.
  unfoldable pub reference_days :
      List Time → List (Transaction F) → Assoc ℕ (DividendDay F) → Assoc ℕ (DividendDay F)
  unfolding received_by received_on dividend_day insert
  reference_days [] ts out = out
  reference_days (date ∷ dates) ts out = reference_days dates ts (
      insert (day_number date)
        (dividend_day (received_by (utc_date date) ts nothing_received)
          (received_on (utc_date date) ts []))
        out)
