-- ===== src/Examples/Purchases.antt =====
-- Two purchases of gold, two prices, and rows before, between and after them.
use portfolio_dashboard.Prelude.{
  ℕ, ◌*◌, ◌≡◌, refl, List, [], ◌∷◌, Option, none, some, arith, nat_eq,
}
use portfolio_dashboard.Prelude.Assoc.{lookup, insert}
use portfolio_dashboard.Clock.{Time, day_length, utc_date}
use portfolio_dashboard.Gold.{
  GoldTransaction, GoldPrice, GoldHistoryPoint, gold_overlay, gold_walk, advance_txns,
  advance_prices, gold_point, buy_gold,
}
use portfolio_dashboard.Gold.AsOf.{reference_walk, gold_overlay-reference_walk}
use portfolio_dashboard.Examples.Whole.{ℤ, pos, whole_double}

abbrev purchase : ℕ → ℤ → ℤ → GoldTransaction ℤ
purchase day grams paid = record {
  id = 1;
  user_id = "u";
  date = day * day_length;
  gm_price = pos 10;
  grams_bought = grams;
  quote_price = none;
  bill_amount = none;
  actual_paid = paid;
  billed_weight = none;
  chennai_rate = none;
  created_at = 0;
  updated_at = 0;
}

abbrev price : ℕ → ℤ → GoldPrice ℤ
price day amount = record {
  user_id = "u";
  date = day * day_length;
  price_per_gram = amount;
  created_at = 0;
  updated_at = 0;
}

abbrev purchases : List (GoldTransaction ℤ)
purchases = purchase 10 (pos 2) (pos 20) ∷ purchase 20 (pos 1) (pos 12) ∷ []

abbrev prices : List (GoldPrice ℤ)
prices = price 11 (pos 11) ∷ price 20 (pos 12) ∷ []

abbrev days : List Time
days = 9 * day_length ∷ 10 * day_length ∷ 15 * day_length ∷ 20 * day_length ∷ []

gold_overlay-reference_walk_example :
    gold_overlay purchases prices days ≡ (reference_walk days purchases prices (none, [])).1
unfolding utc_date
gold_overlay-reference_walk_example =
    gold_overlay-reference_walk purchases prices days (omega arith, (omega arith, tt))
      (omega arith, (omega arith, tt))
      (omega arith, (omega arith, (omega arith, (omega arith, tt))))

abbrev value_of : Option (GoldHistoryPoint ℤ) → Option ℤ
value_of none = none
value_of (some p) = some p.current

-- Day 10 has gold but no price yet, and day 20 counts its own purchase.
values :
    (value_of (lookup 10 (gold_overlay purchases prices days)) ≡ none)
    × (value_of (lookup 15 (gold_overlay purchases prices days)) ≡ some (pos 22))
    × (value_of (lookup 20 (gold_overlay purchases prices days)) ≡ some (pos 36))
unfolding gold_overlay gold_walk advance_txns advance_prices gold_point buy_gold lookup insert
    utc_date
values = (refl, refl, refl)
