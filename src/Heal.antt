-- ===== src/Heal.antt =====
-- services/snapshot_recompute.go: stored snapshots are rebuilt after a backdated change of the ledger.
-- `to_upper` is `strings.ToUpper`.
pub mod AsOf
pub mod Scope
use portfolio_dashboard.Prelude.{
  ℕ, ◌+◌, ◌≡◌, Bool, true, false, not, ◌&&◌, ◌||◌, Option, none, some, List, [], ◌∷◌, String,
  if◌then◌else◌, ◌==◌, string_eq, ltb, keep, nat_beq, is_none,
}
use portfolio_dashboard.Prelude.Assoc.{Assoc, lookup, insert}
use portfolio_dashboard.Clock.{Time, utc_date, day_length}
use portfolio_dashboard.Double.{Double, nought, round}
use portfolio_dashboard.Domain.{ObjectId, Transaction, Holding, is_opening}
use portfolio_dashboard.Ledger.{Position, recompute_position}
use portfolio_dashboard.Snapshot.{
  HoldingSnapshot, PortfolioSnapshot, currency_inr, currency_eur, buckets_from_lines,
}
use portfolio_dashboard.Mongo.{Mongo, Tables}
use portfolio_dashboard.Exec.{Exec, World, pure, gets, ◌>>=◌, ◌>>◌}
use portfolio_dashboard.SnapshotStore.{is_empty, upsert, list_snapshots}

-- `CurrencyOf` of services/snapshot.go; `none` is ("unknown", false).
unfoldable pub currency_of : {F : Type 0} → (String → String) → Holding F → Option String
currency_of to_upper h =
    let code = to_upper h.currency in
    if code == currency_inr || code == currency_eur
    then some code
    else if code == ""
    then some currency_inr
    else none

-- Whether `asOfLedger` keeps an event.
unfoldable pub in_effect : {F : Type 0} → Time → Transaction F → Bool
in_effect cutoff t =
    if is_opening t.type
    then elim t.opening_date [ none ↦ true | some date ↦ ltb (utc_date date) cutoff ]
    else ltb t.date cutoff

unfoldable pub as_of_ledger : {F : Type 0} → Time → List (Transaction F) → List (Transaction F)
unfolding in_effect
as_of_ledger cutoff = keep (in_effect cutoff)

-- `byHolding[id]`
unfoldable pub ledger_of : {F : Type 0} → ObjectId → List (Transaction F) → List (Transaction F)
ledger_of id = keep (λ t. nat_beq t.holding_id id)

-- `priorClose`: the stored lines by symbol, of which the last one counts.
unfoldable pub prior_lines :
    {F : Type 0}
    → List (HoldingSnapshot F)
    → Assoc String (HoldingSnapshot F)
    → Assoc String (HoldingSnapshot F)
unfolding insert
prior_lines [] m = m
prior_lines (ln ∷ lns) m = prior_lines lns (insert ln.symbol ln m)

module _ {F : Type 0} ⦃d : Double F⦄ where
  open d use {mul, eq}

  -- The line of one holding, valued at the close that is stored for the day or else at its cost.
  unfoldable pub line_of :
      Holding F → String → Position F → Option (HoldingSnapshot F) → HoldingSnapshot F
  line_of h currency pos prior =
      let close : F = elim prior [ none ↦ pos.avg_cost_price | some ln ↦ ln.close_price ] in
      record {
        symbol = h.symbol;
        script = h.script;
        currency = currency;
        quantity = pos.stocks_owned;
        avg_cost = pos.avg_cost_price;
        close_price = close;
        price_date = elim prior [ none ↦ none | some ln ↦ ln.price_date ];
        invested = round (mul pos.stocks_owned pos.avg_cost_price);
        current = round (mul pos.stocks_owned close);
      }

  unfoldable pub lines_of :
      Holding F
      → Option String
      → Position F
      → Option (HoldingSnapshot F)
      → List (HoldingSnapshot F)
      → List (HoldingSnapshot F)
  unfolding line_of
  lines_of h none pos prior rest = rest
  lines_of h (some currency) pos prior rest =
      if eq pos.stocks_owned nought && is_none prior
      then rest
      else line_of h currency pos prior ∷ rest

  -- `linesAsOf`
  unfoldable pub lines_as_of :
      (String → String)
      → List (Transaction F)
      → Time
      → Assoc String (HoldingSnapshot F)
      → List (Holding F)
      → List (HoldingSnapshot F)
  unfolding lines_of currency_of as_of_ledger ledger_of lookup
  lines_as_of to_upper txns cutoff prior [] = []
  lines_as_of to_upper txns cutoff prior (h ∷ hs) =
      lines_of h (currency_of to_upper h)
        (recompute_position (as_of_ledger cutoff (ledger_of h.id txns))).0 (lookup h.symbol prior)
        (lines_as_of to_upper txns cutoff prior hs)

  -- The row that replaces a stored one with these lines.
  unfoldable pub rebuilt :
      (String → String)
      → ObjectId
      → List (Holding F)
      → List (Transaction F)
      → PortfolioSnapshot F
      → List (HoldingSnapshot F)
      → PortfolioSnapshot F
  unfolding lines_as_of prior_lines
  rebuilt to_upper uid holdings txns snap stored =
      let lines =
        lines_as_of to_upper txns (utc_date snap.date + day_length) (prior_lines stored [])
          holdings in
      record {
        user_id = uid;
        date = snap.date;
        currency = currency_inr;
        buckets = buckets_from_lines lines;
        lines = some lines;
        created_at = 0;
        updated_at = 0;
      }

  module _ (m : Mongo F) where
    -- `ListByUser` of the holdings and of the transactions
    unfoldable pub list_holdings : ObjectId → Exec (Tables F m) (List (Holding F))
    list_holdings uid = gets (λ t. m.holdings.query (λ h. nat_beq h.user_id uid) t.holdings)

    unfoldable pub list_transactions : ObjectId → Exec (Tables F m) (List (Transaction F))
    list_transactions uid =
        gets (λ t. m.transactions.query (λ x. nat_beq x.user_id uid) t.transactions)

    -- One row: with no stored lines it is left alone.
    unfoldable pub heal_row :
        (String → String)
        → Time
        → ObjectId
        → List (Holding F)
        → List (Transaction F)
        → PortfolioSnapshot F
        → Exec (Tables F m) (Unit {0})
    heal_row to_upper now uid holdings txns snap = elim snap.lines [
      | none ↦ pure tt
      | some stored ↦ upsert m now (rebuilt to_upper uid holdings txns snap stored)
    ]

    unfoldable pub heal_rows :
        (String → String)
        → Time
        → ObjectId
        → List (Holding F)
        → List (Transaction F)
        → List (PortfolioSnapshot F)
        → Exec (Tables F m) (Unit {0})
    heal_rows to_upper now uid holdings txns [] = pure tt
    heal_rows to_upper now uid holdings txns (snap ∷ snaps) =
        heal_row to_upper now uid holdings txns snap
        >> heal_rows to_upper now uid holdings txns snaps

    -- `RecomputeFrom`
    unfoldable pub recompute_from :
        (String → String) → Time → ObjectId → Time → Exec (Tables F m) (Unit {0})
    recompute_from to_upper now uid from =
        let today = utc_date now in
        let from_day = utc_date from in
        if ltb today from_day then pure tt else do
          snaps ← list_snapshots m uid from_day today
          if is_empty snaps then pure tt else do
            holdings ← list_holdings uid
            txns ← list_transactions uid
            heal_rows to_upper now uid holdings txns snaps
