-- ===== src/Admin/Platform.antt =====
-- All stores that the controllers share: the accounts, the portfolio documents and the gold tables. The deletes
-- by owner of persistence/holdings.go, persistence/transactions.go and persistence/gold.go.
use portfolio_dashboard.Prelude.{String, ◌==◌, string_eq, nat_eq, nat_beq}
use portfolio_dashboard.Domain.{ObjectId}
use portfolio_dashboard.Collection.{Collection}
use portfolio_dashboard.Mongo.{Mongo, Tables}
use portfolio_dashboard.Gold.{GoldTransaction, GoldPrice}
use portfolio_dashboard.Access.Sessions.{Accounts, AccountTables}
use portfolio_dashboard.Exec.{Exec, modify}

pub record Platform (F : Type 0) : Type 1 where
  pub accounts : Accounts
  pub mongo : Mongo F
  -- By the serial ids of the rows.
  pub gold_transactions : Collection ObjectId (GoldTransaction F)
  pub gold_prices : Collection ObjectId (GoldPrice F)

pub record PlatformTables (F : Type 0) (p : Platform F) : Type 0 where
  pub accounts : AccountTables p.accounts
  pub portfolios : Tables F p.mongo
  pub gold_transactions : p.gold_transactions.State
  pub gold_prices : p.gold_prices.State

module _ {F : Type 0} (p : Platform F) where
  -- What a handler on the accounts does to all stores.
  abbrev pub within : {A : Type 0} → Exec (AccountTables p.accounts) A → Exec (PlatformTables F p) A
  within m w =
      let (r, v) = m (record { stored = w.stored.accounts; faults = w.faults }) in
      (r, record { stored = record w.stored { accounts = v.stored }; faults = v.faults })

  -- `HoldingStore.DeleteByUser`
  unfoldable pub delete_holdings_by_user : ObjectId → Exec (PlatformTables F p) (Unit {0})
  delete_holdings_by_user uid = modify λ t. record t {
    portfolios = record t.portfolios {
      holdings = p.mongo.holdings.remove_all (λ h. nat_beq h.user_id uid) t.portfolios.holdings;
    };
  }

  -- `TransactionStore.DeleteByUser`
  unfoldable pub delete_transactions_by_user : ObjectId → Exec (PlatformTables F p) (Unit {0})
  delete_transactions_by_user uid = modify λ t. record t {
    portfolios = record t.portfolios {
      transactions =
          p.mongo.transactions.remove_all (λ x. nat_beq x.user_id uid) t.portfolios.transactions;
    };
  }

  -- `GoldDao.DeleteAllByUser`: both deletes are one transaction, so one call of the database.
  unfoldable pub delete_all_gold_by_user : String → Exec (PlatformTables F p) (Unit {0})
  delete_all_gold_by_user uid = modify λ t. record t {
    gold_transactions = p.gold_transactions.remove_all (λ x. x.user_id == uid) t.gold_transactions;
    gold_prices = p.gold_prices.remove_all (λ x. x.user_id == uid) t.gold_prices;
  }
