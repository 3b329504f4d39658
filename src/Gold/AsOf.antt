-- ===== src/Gold/AsOf.antt =====
-- The walk of the overlay against the position that each date has by itself.
use portfolio_dashboard.Prelude.{
  ◌≡◌, ◌≤◌, false, Option, none, some, List, [], ◌∷◌, if◌then◌else◌, leb, ltb, ℕ, ◌&&◌, nat_eq,
  arith, refl, ap, ap₂, ◌∙◌, Bool-cases, inl, inr,
}
use portfolio_dashboard.Prelude.Assoc.{Assoc, insert}
use portfolio_dashboard.Clock.{Time, utc_date, day_number}
use portfolio_dashboard.Double.{Double, nought, is_nonzero}
use portfolio_dashboard.Gold.{
  GoldTransaction, GoldPrice, GoldHistoryPoint, GoldPosition, is_by, buy_gold, advance_txns,
  advance_prices, gold_point, record_point, gold_walk, no_gold, gold_overlay,
}

-- In ascending order of the day, as the database lists purchases and prices, and no earlier than a given one.
abbrev pub IsAscending {ℓ} : {A : Type ℓ} → (A → Time) → Time → List A → Type 0
IsAscending date from [] = Unit
IsAscending date from (x ∷ xs) =
    (from ≤ utc_date (date x)) × IsAscending date (utc_date (date x)) xs

module _ {F : Type 0} ⦃d : Double F⦄ where
  open d use {literal, add, sub, mul, div, eq}

  abbrev no_holding : GoldPosition F
  no_holding = record { invested = nought; grams = nought }

  -- What was paid for the purchases of the day and before it, and their weight.
  unfoldable pub position_by : Time → List (GoldTransaction F) → GoldPosition F → GoldPosition F
  position_by day [] p = p
  position_by day (t ∷ ts) p = position_by day ts (
      if ltb day (utc_date t.date)
      then p
      else record { invested = add p.invested t.actual_paid; grams = add p.grams t.grams_bought })

  -- The last price of the day or before it.
  unfoldable pub price_by : Time → List (GoldPrice F) → Option F → Option F
  price_by day [] price = price
  price_by day (q ∷ qs) price =
      price_by day qs (if ltb day (utc_date q.date) then price else some q.price_per_gram)

  -- What the gold is worth, if there is gold and a price for it.
  unfoldable pub worth : GoldPosition F → Option F → Option F
  worth p none = none
  worth p (some price) =
      if eq p.grams nought && eq p.invested nought then none else some (mul p.grams price)

  -- The change in percent, if there is something to compare with.
  unfoldable pub percent_from : Option F → F → Option F
  percent_from none new = none
  percent_from (some old) new =
      if is_nonzero old then some (mul (div (sub new old) old) (literal 100 0)) else none

  -- The point of a day, beside the last value before it.
  unfoldable pub valued_point : GoldPosition F → Option F → F → GoldHistoryPoint F
  unfolding percent_from
  valued_point p before value = record {
    invested = p.invested;
    current = value;
    volatility_pct = elim (percent_from before value) [ none ↦ nought | some change ↦ change ];
    pnl_pct = percent_from (some p.invested) value;
  }

  -- The last value and the points after a day that may have a value.
  unfoldable pub after_day :
      Time
      → GoldPosition F
      → Option F
      → Option F × Assoc ℕ (GoldHistoryPoint F)
      → Option F × Assoc ℕ (GoldHistoryPoint F)
  unfolding valued_point insert
  after_day day p none acc = acc
  after_day day p (some value) (before, points) =
      (some value, insert (day_number day) (valued_point p before value) points)

  -- The overlay with each date's position and price taken from the whole lists.
  unfoldable pub reference_walk :
      List Time
      → List (GoldTransaction F)
      → List (GoldPrice F)
      → Option F × Assoc ℕ (GoldHistoryPoint F)
      → Option F × Assoc ℕ (GoldHistoryPoint F)
  unfolding position_by price_by worth after_day
  reference_walk [] txns prices acc = acc
  reference_walk (date ∷ dates) txns prices acc =
      let day = utc_date date in
      let p = position_by day txns no_holding in
      reference_walk dates txns prices (after_day day p (worth p (price_by day prices none)) acc)

  record_point-eq-after_day :
      (day : Time) (p : GoldPosition F) (price : Option F)
      (acc : Option F × Assoc ℕ (GoldHistoryPoint F))
      → record_point day (gold_point p price acc.0) acc ≡ after_day day p (worth p price) acc
  unfolding gold_point worth after_day valued_point percent_from
  record_point-eq-after_day day p none acc = refl
  record_point-eq-after_day day p (some price) (none, points) = ground arith
  record_point-eq-after_day day p (some price) (some old, points) = ground arith

  -- A list that starts after the day adds nothing.
  position_by-late :
      (day from : Time) (ts : List (GoldTransaction F)) (p : GoldPosition F)
      → IsAscending (λ t. t.date) from ts
      → leb from day ≡ false
      → position_by day ts p ≡ p
  unfolding position_by
  position_by-late day from [] p h late = refl
  position_by-late day from (t ∷ ts) p h late =
      ground (arith, position_by-late day (utc_date t.date) ts p h.1)

  advance_txns-position_by :
      (day from : Time) (ts : List (GoldTransaction F)) (p : GoldPosition F)
      → IsAscending (λ t. t.date) from ts
      → (advance_txns day ts p).0 ≡ position_by day ts p
  unfolding advance_txns position_by buy_gold
  advance_txns-position_by day from [] p h = refl
  advance_txns-position_by day from (t ∷ ts) p h = ground (
    arith,
    advance_txns-position_by day (utc_date t.date) ts (buy_gold t p) h.1,
    position_by-late day (utc_date t.date) ts p h.1,
  )

  -- What is left after a day gives, on a later one, what the whole list gives.
  advance_txns-later :
      (day later from : Time) (ts : List (GoldTransaction F)) (p : GoldPosition F)
      → day ≤ later
      → IsAscending (λ t. t.date) from ts
      → position_by later (advance_txns day ts p).1 (advance_txns day ts p).0
        ≡ position_by later ts p
  unfolding advance_txns position_by buy_gold
  advance_txns-later day later from [] p le h = refl
  advance_txns-later day later from (t ∷ ts) p le h =
      ground (arith, advance_txns-later day later (utc_date t.date) ts (buy_gold t p) le h.1)

  advance_txns-IsAscending :
      (day from : Time) (ts : List (GoldTransaction F)) (p : GoldPosition F)
      → IsAscending (λ t. t.date) from ts
      → (start : Time) × IsAscending (λ t. t.date) start (advance_txns day ts p).1
  unfolding advance_txns
  advance_txns-IsAscending day from [] p h = (from, tt)
  advance_txns-IsAscending day from (t ∷ ts) p h =
      let (start, rest) = advance_txns-IsAscending day (utc_date t.date) ts (buy_gold t p) h.1 in
      elim (Bool-cases (is_by day t.date)) [
        | inl by_then ↦ (start, rw by_then rest)
        | inr late ↦ (from, rw late h)
      ]

  price_by-late :
      (day from : Time) (qs : List (GoldPrice F)) (price : Option F)
      → IsAscending (λ q. q.date) from qs
      → leb from day ≡ false
      → price_by day qs price ≡ price
  unfolding price_by
  price_by-late day from [] price h late = refl
  price_by-late day from (q ∷ qs) price h late =
      ground (arith, price_by-late day (utc_date q.date) qs price h.1)

  advance_prices-price_by :
      (day from : Time) (qs : List (GoldPrice F)) (price : Option F)
      → IsAscending (λ q. q.date) from qs
      → (advance_prices day qs price).0 ≡ price_by day qs price
  unfolding advance_prices price_by
  advance_prices-price_by day from [] price h = refl
  advance_prices-price_by day from (q ∷ qs) price h = ground (
    arith,
    advance_prices-price_by day (utc_date q.date) qs (some q.price_per_gram) h.1,
    price_by-late day (utc_date q.date) qs price h.1,
  )

  advance_prices-later :
      (day later from : Time) (qs : List (GoldPrice F)) (price : Option F)
      → day ≤ later
      → IsAscending (λ q. q.date) from qs
      → price_by later (advance_prices day qs price).1 (advance_prices day qs price).0
        ≡ price_by later qs price
  unfolding advance_prices price_by
  advance_prices-later day later from [] price le h = refl
  advance_prices-later day later from (q ∷ qs) price le h =
      ground
        (arith, advance_prices-later day later (utc_date q.date) qs (some q.price_per_gram) le h.1)

  advance_prices-IsAscending :
      (day from : Time) (qs : List (GoldPrice F)) (price : Option F)
      → IsAscending (λ q. q.date) from qs
      → (start : Time) × IsAscending (λ q. q.date) start (advance_prices day qs price).1
  unfolding advance_prices
  advance_prices-IsAscending day from [] price h = (from, tt)
  advance_prices-IsAscending day from (q ∷ qs) price h =
      let (start, rest) =
        advance_prices-IsAscending day (utc_date q.date) qs (some q.price_per_gram) h.1 in
      elim (Bool-cases (is_by day q.date)) [
        | inl by_then ↦ (start, rw by_then rest)
        | inr late ↦ (from, rw late h)
      ]

  gold_walk-reference_walk :
      (dates : List Time) (all_txns txns : List (GoldTransaction F))
      (all_prices prices : List (GoldPrice F)) (p : GoldPosition F) (price : Option F)
      (acc : Option F × Assoc ℕ (GoldHistoryPoint F)) (from bought priced : Time)
      → IsAscending (λ t. t) from dates
      → IsAscending (λ t. t.date) bought txns
      → IsAscending (λ q. q.date) priced prices
      → ((day : Time) → from ≤ day → position_by day txns p ≡ position_by day all_txns no_holding)
      → ((day : Time) → from ≤ day → price_by day prices price ≡ price_by day all_prices none)
      → gold_walk dates txns prices p price acc ≡ reference_walk dates all_txns all_prices acc
  unfolding gold_walk reference_walk
  gold_walk-reference_walk [] all_txns txns all_prices prices p price acc from bought priced h g k
        eqs eqs' =
      refl
  gold_walk-reference_walk (date ∷ dates) all_txns txns all_prices prices p price acc from bought
        priced h g k eqs eqs' =
      let day = utc_date date in
      let (bought', g') = advance_txns-IsAscending day bought txns p g in
      let (priced', k') = advance_prices-IsAscending day priced prices price k in
      gold_walk-reference_walk dates all_txns (advance_txns day txns p).1 all_prices
        (advance_prices day prices price).1 (advance_txns day txns p).0
        (advance_prices day prices price).0
        (record_point day
          (gold_point (advance_txns day txns p).0 (advance_prices day prices price).0 acc.0) acc)
        day bought' priced' h.1 g' k'
        (λ later le.
          advance_txns-later day later bought txns p le g ∙ eqs later (omega (arith, h.0, le)))
        (λ later le.
          advance_prices-later day later priced prices price le k
          ∙ eqs' later (omega (arith, h.0, le)))
      ∙ ap₂
          (λ x y.
            reference_walk dates all_txns all_prices (record_point day (gold_point x y acc.0) acc))
          (advance_txns-position_by day bought txns p g ∙ eqs day h.0)
          (advance_prices-price_by day priced prices price k ∙ eqs' day h.0)
      ∙ ap (reference_walk dates all_txns all_prices) (
          record_point-eq-after_day day (position_by day all_txns no_holding)
            (price_by day all_prices none) acc)

  -- If the purchases, the prices and the dates come in ascending order, the overlay's one walk gives each
  -- date the point of all the purchases and the last price by the end of that day, taken from the whole
  -- lists, with the change from the date before that has a point.
  pub gold_overlay-reference_walk :
      (txns : List (GoldTransaction F)) (prices : List (GoldPrice F)) (dates : List Time)
      → IsAscending (λ t. t.date) 0 txns
      → IsAscending (λ q. q.date) 0 prices
      → IsAscending (λ t. t) 0 dates
      → gold_overlay txns prices dates ≡ (reference_walk dates txns prices (none, [])).1
  unfolding gold_overlay
  gold_overlay-reference_walk txns prices dates g k h =
      ap (λ acc. acc.1)
        (gold_walk-reference_walk dates txns txns prices prices no_gold none (none, []) 0 0 0 h g k
          (λ day le. refl) (λ day le. refl))
