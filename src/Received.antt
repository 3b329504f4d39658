-- ===== src/Received.antt =====
-- services/dividend_history.go: the dividends received by the day of each row of the history. A row's date is its
-- midnight: a text that is no date has none.
pub mod AsOf
use portfolio_dashboard.Prelude.{
  ◌≡◌, ◌↔◌, ℕ, Bool, ◌&&◌, List, [], ◌∷◌, none, some, String, ◌==◌, string_eq, nat_eq, nat_beq, map,
  if◌then◌else◌, ltb, Eq, true, ==_iff, arith,
}
use portfolio_dashboard.Prelude.Assoc.{Assoc, lookup, insert}
use portfolio_dashboard.Prelude.Sort.{sort}
use portfolio_dashboard.Clock.{Time, utc_date, day_number}
use portfolio_dashboard.Double.{Double, Int64, add64, amount_cents, cents_to_money}
use portfolio_dashboard.Domain.{ObjectId, Transaction, Holding}
use portfolio_dashboard.Gold.{is_by}

pub record DividendHistoryPoint (F : Type 0) : Type 0 where
  pub to_date : F
  pub on_day : F

pub record StockKey : Type 0 where
  pub currency : String
  pub symbol : String

abbrev stock_key_beq : StockKey → StockKey → Bool
stock_key_beq a b = a.currency == b.currency && a.symbol == b.symbol

pub stock_key_beq_iff : (a b : StockKey) → (stock_key_beq a b ≡ true) ↔ (a ≡ b)
stock_key_beq_iff a b = ground (arith, ==_iff a.currency b.currency, ==_iff a.symbol b.symbol)

instance abbrev pub stock_key_eq : Eq StockKey
stock_key_eq = record { same = stock_key_beq; same_iff = stock_key_beq_iff }

pub record DividendDay (F : Type 0) : Type 0 where
  pub by_currency : Assoc String (DividendHistoryPoint F)
  pub by_stock : Assoc StockKey F

-- The maps `toDate` and `byStock`.
pub record Received : Type 0 where
  pub to_date : Assoc String Int64
  pub by_stock : Assoc StockKey Int64

-- 0 for a missing key
abbrev pub cents_at : {K : Type 0} ⦃e : Eq K⦄ → K → Assoc K Int64 → Int64
cents_at key m = elim (lookup key m) [ none ↦ 0 | some cents ↦ cents ]

-- `m[key] += cents`
abbrev pub add_cents : {K : Type 0} ⦃e : Eq K⦄ → K → Int64 → Assoc K Int64 → Assoc K Int64
add_cents key cents m = insert key (add64 (cents_at key m) cents) m

abbrev pub nothing_received : Received
nothing_received = record { to_date = []; by_stock = [] }

module _ {F : Type 0} ⦃d : Double F⦄ where
  -- `symbolOf`
  unfoldable pub symbols_of : Assoc ObjectId String → List (Holding F) → Assoc ObjectId String
  unfolding insert
  symbols_of m [] = m
  symbols_of m (h ∷ hs) = symbols_of (insert h.id h.symbol m) hs

  abbrev pub stock_of : Assoc ObjectId String → Transaction F → StockKey
  stock_of symbols t = record {
    currency = t.currency;
    symbol = elim (lookup t.holding_id symbols) [ none ↦ "" | some symbol ↦ symbol ];
  }

  unfoldable pub receive : Assoc ObjectId String → Transaction F → Received → Received
  unfolding amount_cents lookup insert
  receive symbols t r = record {
    to_date = add_cents t.currency (amount_cents t.amount) r.to_date;
    by_stock = add_cents (stock_of symbols t) (amount_cents t.amount) r.by_stock;
  }

  unfoldable pub receive_on : Time → Transaction F → Assoc String Int64 → Assoc String Int64
  unfolding amount_cents lookup insert
  receive_on day t on_day =
      if nat_beq (utc_date t.date) day
      then add_cents t.currency (amount_cents t.amount) on_day
      else on_day

  -- The inner loop, with the dividends that are left.
  unfoldable pub advance_dividends :
      Assoc ObjectId String
      → Time
      → List (Transaction F)
      → Received
      → Assoc String Int64
      → Received × Assoc String Int64 × List (Transaction F)
  unfolding receive receive_on
  advance_dividends symbols day [] r on_day = (r, on_day, [])
  advance_dividends symbols day (t ∷ ts) r on_day =
      let rest = advance_dividends symbols day ts (receive symbols t r) (receive_on day t on_day) in
      if is_by day t.date then rest else (r, on_day, t ∷ ts)

  unfoldable pub dividend_day : Received → Assoc String Int64 → DividendDay F
  unfolding cents_to_money lookup
  dividend_day r on_day = record {
    by_currency =
        map
          (λ (currency, cents). (
            currency,
            record {
              to_date = cents_to_money cents;
              on_day = cents_to_money (cents_at currency on_day);
            },
          ))
          r.to_date;
    by_stock = map (λ (stock, cents). (stock, cents_to_money cents)) r.by_stock;
  }

  -- The walk over the dates that are left.
  unfoldable pub dividend_walk :
      Assoc ObjectId String
      → List Time
      → List (Transaction F)
      → Received
      → Assoc ℕ (DividendDay F)
      → Assoc ℕ (DividendDay F)
  unfolding advance_dividends dividend_day insert
  dividend_walk symbols [] ts r out = out
  dividend_walk symbols (date ∷ dates) ts r out =
      let (r', on_day, ts') = advance_dividends symbols (utc_date date) ts r [] in
      dividend_walk symbols dates ts' r' (insert (day_number date) (dividend_day r' on_day) out)

  -- `DividendOverlay`
  unfoldable pub dividend_overlay :
      List (Transaction F) → List (Holding F) → List Time → Assoc ℕ (DividendDay F)
  unfolding symbols_of dividend_walk sort
  dividend_overlay dividends holdings dates =
      dividend_walk (symbols_of [] holdings) (sort ltb dates) dividends nothing_received []
