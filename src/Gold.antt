-- ===== src/Gold.antt =====
-- services/gold_history.go and domain/gold.go: the physical-gold position beside the rows of the history.
pub mod AsOf
use portfolio_dashboard.Prelude.{
  ℕ, Bool, true, false, ◌&&◌, Option, none, some, List, [], ◌∷◌, String, if◌then◌else◌, leb,
  nat_beq, nat_eq,
}
use portfolio_dashboard.Prelude.Assoc.{Assoc, insert}
use portfolio_dashboard.Clock.{Time, utc_date, day_number}
use portfolio_dashboard.Double.{Double, Int64, nought, is_nonzero}

pub record GoldTransaction (F : Type 0) : Type 0 where
  pub id : Int64
  pub user_id : String
  pub date : Time
  pub gm_price : F
  pub grams_bought : F
  pub quote_price : Option F
  pub bill_amount : Option F
  pub actual_paid : F
  pub billed_weight : Option F
  pub chennai_rate : Option String
  pub created_at : Time
  pub updated_at : Time

pub record GoldPrice (F : Type 0) : Type 0 where
  pub user_id : String
  pub date : Time
  pub price_per_gram : F
  pub created_at : Time
  pub updated_at : Time

pub record GoldHistoryPoint (F : Type 0) : Type 0 where
  pub invested : F
  pub current : F
  pub volatility_pct : F
  pub pnl_pct : Option F

-- The sums of `invested` and `grams`.
pub record GoldPosition (F : Type 0) : Type 0 where
  pub invested : F
  pub grams : F

-- `!dateOnly(date).After(day)`
abbrev pub is_by : Time → Time → Bool
is_by day date = leb (utc_date date) day

module _ {F : Type 0} ⦃d : Double F⦄ where
  open d use {literal, add, sub, mul, div, eq}

  unfoldable pub buy_gold : GoldTransaction F → GoldPosition F → GoldPosition F
  buy_gold t p = record {
    invested = add p.invested t.actual_paid;
    grams = add p.grams t.grams_bought;
  }

  -- The first inner loop, from the purchase at `ti`, with the purchases that are left.
  unfoldable pub advance_txns :
      Time → List (GoldTransaction F) → GoldPosition F → GoldPosition F × List (GoldTransaction F)
  unfolding buy_gold
  advance_txns day [] p = (p, [])
  advance_txns day (t ∷ ts) p =
      let rest = advance_txns day ts (buy_gold t p) in
      if is_by day t.date then rest else (p, t ∷ ts)

  -- The second inner loop, from the price at `pi`.
  unfoldable pub advance_prices :
      Time → List (GoldPrice F) → Option F → Option F × List (GoldPrice F)
  advance_prices day [] price = (price, [])
  advance_prices day (q ∷ qs) price =
      let rest = advance_prices day qs (some q.price_per_gram) in
      if is_by day q.date then rest else (price, q ∷ qs)

  abbrev pub change_pct : F → F → F
  change_pct old new = mul (div (sub new old) old) (literal 100 0)

  abbrev pub volatility : Option F → F → F
  volatility none current = nought
  volatility (some old) current = if is_nonzero old then change_pct old current else nought

  -- The point of one row, if there is a position and a price for it.
  unfoldable pub gold_point : GoldPosition F → Option F → Option F → Option (GoldHistoryPoint F)
  gold_point p none previous = none
  gold_point p (some price) previous =
      let current = mul p.grams price in
      if eq p.grams nought && eq p.invested nought
      then none
      else some (record {
        invested = p.invested;
        current = current;
        volatility_pct = volatility previous current;
        pnl_pct = if is_nonzero p.invested then some (change_pct p.invested current) else none;
      })

  -- The last value and the points so far, after one row.
  abbrev pub record_point :
      Time
      → Option (GoldHistoryPoint F)
      → Option F × Assoc ℕ (GoldHistoryPoint F)
      → Option F × Assoc ℕ (GoldHistoryPoint F)
  record_point day none acc = acc
  record_point day (some point) (previous, out) =
      (some point.current, insert (day_number day) point out)

  -- The walk of `goldOverlay` over the dates that are left.
  unfoldable pub gold_walk :
      List Time
      → List (GoldTransaction F)
      → List (GoldPrice F)
      → GoldPosition F
      → Option F
      → Option F × Assoc ℕ (GoldHistoryPoint F)
      → Option F × Assoc ℕ (GoldHistoryPoint F)
  unfolding advance_txns advance_prices gold_point
  gold_walk [] txns prices p price acc = acc
  gold_walk (date ∷ dates) txns prices p price acc =
      let day = utc_date date in
      let (p', txns') = advance_txns day txns p in
      let (price', prices') = advance_prices day prices price in
      gold_walk dates txns' prices' p' price' (record_point day (gold_point p' price' acc.0) acc)

  abbrev pub no_gold : GoldPosition F
  no_gold = record { invested = nought; grams = nought }

  -- `goldOverlay`
  unfoldable pub gold_overlay :
      List (GoldTransaction F) → List (GoldPrice F) → List Time → Assoc ℕ (GoldHistoryPoint F)
  unfolding gold_walk
  gold_overlay txns prices dates = (gold_walk dates txns prices no_gold none (none, [])).1
