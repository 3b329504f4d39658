-- ===== src/SnapshotJob.antt =====
-- services/snapshot.go: the daily snapshots of all users. `quote` is the price source's answer when a holding of
-- a user is valued, none for an error, and `to_upper` is `strings.ToUpper`.
pub mod Keeps
pub mod Reach
pub mod Rows
pub mod Counts
use portfolio_dashboard.Prelude.{
  ℕ, ◌+◌, ◌%◌, Bool, true, false, not, ◌||◌, Option, none, some, List, [], ◌∷◌, String, length,
  if◌then◌else◌, ltb, nat_beq, nat_eq, string_eq,
}
use portfolio_dashboard.Prelude.Assoc.{Assoc, lookup, insert}
use portfolio_dashboard.Clock.{Time, utc_date, day_number}
use portfolio_dashboard.Double.{Double, nought, le, is_pos, round}
use portfolio_dashboard.Errors.{Error, unknown_user, is_not_found, Result, ok, err}
use portfolio_dashboard.Domain.{ObjectId, Holding}
use portfolio_dashboard.Snapshot.{
  HoldingSnapshot, PortfolioSnapshot, currency_inr, buckets_from_lines,
}
use portfolio_dashboard.Mongo.{Mongo, Tables}
use portfolio_dashboard.Exec.{Exec, World, pure, raise, attempt, gets, ◌>>=◌, ◌>>◌}
use portfolio_dashboard.SnapshotStore.{upsert, latest_before}
use portfolio_dashboard.Heal.{currency_of, prior_lines, list_holdings}
use portfolio_dashboard.Access.{User}
use portfolio_dashboard.Access.Sessions.{find_user}
use portfolio_dashboard.Account.Store.{list_users}
use portfolio_dashboard.Admin.Platform.{Platform, PlatformTables, within}

-- The first day of the clock was a Monday.
unfoldable pub is_weekend : Time → Bool
is_weekend t = nat_beq (day_number t % 7) 5 || nat_beq (day_number t % 7) 6

pub record RunOptions : Type 0 where
  -- none is the zero time
  pub date : Option Time
  -- none is the zero id
  pub user_id : Option ObjectId
  pub dry_run : Bool

pub record RunReport : Type 0 where
  pub date : Time
  pub total : ℕ
  pub succeeded : ℕ
  pub user_errors : Assoc ObjectId Error

module _ {F : Type 0} ⦃d : Double F⦄ where
  open d use {mul}

  -- The price and its day.
  unfoldable pub price_for : Option F → Time → Option (HoldingSnapshot F) → F × Option ℕ
  price_for quoted date (some prior) = (prior.close_price, prior.price_date)
  price_for none date none = (nought, some (day_number date))
  price_for (some p) date none =
      if le p nought then (nought, some (day_number date)) else (p, some (day_number date))

  unfoldable pub valued_line : Holding F → String → F × Option ℕ → HoldingSnapshot F
  valued_line h currency (price, day) = record {
    symbol = h.symbol;
    script = h.script;
    currency = currency;
    quantity = h.stocks_owned;
    avg_cost = h.avg_cost_price;
    close_price = price;
    price_date = day;
    invested = round (mul h.stocks_owned h.avg_cost_price);
    current = round (if is_pos price then mul h.stocks_owned price else nought);
  }

  unfoldable pub add_line :
      Option String → Holding F → F × Option ℕ → List (HoldingSnapshot F) → List (HoldingSnapshot F)
  unfolding valued_line
  add_line none h priced rest = rest
  add_line (some currency) h priced rest = valued_line h currency priced ∷ rest

  -- The loop over the holdings.
  unfoldable pub valued_lines :
      (String → String)
      → (Holding F → Option F)
      → Time
      → Assoc String (HoldingSnapshot F)
      → List (Holding F)
      → List (HoldingSnapshot F)
  unfolding currency_of price_for add_line lookup
  valued_lines to_upper quote date prior [] = []
  valued_lines to_upper quote date prior (h ∷ hs) =
      add_line (currency_of to_upper h) h (price_for (quote h) date (lookup h.symbol prior))
        (valued_lines to_upper quote date prior hs)

  unfoldable pub snapshot_of : ObjectId → Time → List (HoldingSnapshot F) → PortfolioSnapshot F
  unfolding buckets_from_lines
  snapshot_of uid date lines = record {
    user_id = uid;
    date = utc_date date;
    currency = currency_inr;
    buckets = buckets_from_lines lines;
    lines = some lines;
    created_at = 0;
    updated_at = 0;
  }

  -- The lines of the latest row, if there is one.
  abbrev pub lines_by_symbol : Option (PortfolioSnapshot F) → Assoc String (HoldingSnapshot F)
  unfolding prior_lines
  lines_by_symbol none = []
  lines_by_symbol (some prev) = elim prev.lines [ none ↦ [] | some lines ↦ prior_lines lines [] ]

  module _ (m : Mongo F) (to_upper : String → String) where
    -- `priorBySymbol`
    unfoldable pub prior_by_symbol :
        ObjectId → Time → Exec (Tables F m) (Assoc String (HoldingSnapshot F))
    unfolding is_weekend latest_before
    prior_by_symbol uid date =
        if is_weekend date
        then (do prev ← latest_before m uid date; pure (lines_by_symbol prev))
        else pure []

    -- `BuildSnapshot`
    unfoldable pub build_snapshot :
        (ObjectId → Holding F → Option F)
        → ObjectId
        → Time
        → Exec (Tables F m) (PortfolioSnapshot F)
    unfolding list_holdings prior_by_symbol valued_lines snapshot_of
    build_snapshot quote uid date = do
      holdings ← list_holdings m uid
      prior ← prior_by_symbol uid date
      pure (snapshot_of uid date (valued_lines to_upper (quote uid) date prior holdings))

  module _ (p : Platform F) (to_upper : String → String)
      (quote : ObjectId → Holding F → Option F) where
    -- What a service on the documents does to all stores.
    abbrev pub within_portfolios :
        {A : Type 0} → Exec (Tables F p.mongo) A → Exec (PlatformTables F p) A
    within_portfolios m w =
        let (r, v) = m (record { stored = w.stored.portfolios; faults = w.faults }) in
        (r, record { stored = record w.stored { portfolios = v.stored }; faults = v.faults })

    -- `activeUsers`
    unfoldable pub active_users : Option ObjectId → Exec (PlatformTables F p) (List User)
    unfolding find_user list_users
    active_users none =
        within p (list_users p.accounts (λ u. not u.disabled) (λ u v. ltb u.id v.id))
    active_users (some id) = do
      found ← attempt (within p (find_user p.accounts id))
      elim found [
        | ok u ↦ pure (if u.disabled then [] else u ∷ [])
        | err e ↦ raise (if is_not_found e then unknown_user else e)
      ]

    abbrev pub with_failure : ObjectId → Error → RunReport → RunReport
    unfolding insert
    with_failure uid e r = record r { user_errors = insert uid e r.user_errors }

    abbrev pub with_success : RunReport → RunReport
    with_success r = record r { succeeded = r.succeeded + 1 }

    abbrev pub settled : ObjectId → RunReport → Result (Unit {0}) → RunReport
    settled uid report (ok done) = with_success report
    settled uid report (err e) = with_failure uid e report

    unfoldable pub store_snapshot :
        Time
        → Bool
        → ObjectId
        → RunReport
        → Result (PortfolioSnapshot F)
        → Exec (PlatformTables F p) RunReport
    unfolding upsert
    store_snapshot now dry_run uid report (err e) = pure (with_failure uid e report)
    store_snapshot now dry_run uid report (ok snap) =
        if dry_run then pure (with_success report) else (do
          written ← attempt (within_portfolios (upsert p.mongo now snap))
          pure (settled uid report written))

    -- One user of the loop.
    unfoldable pub run_user :
        Time → Bool → Time → RunReport → User → Exec (PlatformTables F p) RunReport
    unfolding build_snapshot store_snapshot
    run_user now dry_run date report u = do
      built ← attempt (within_portfolios (build_snapshot p.mongo to_upper quote u.id date))
      store_snapshot now dry_run u.id report built

    -- The loop. The context is asked before each user; a failing answer is its cancellation.
    unfoldable pub run_users :
        Time
        → Bool
        → Time
        → RunReport
        → List User
        → Exec (PlatformTables F p) (RunReport × Option Error)
    unfolding run_user
    run_users now dry_run date report [] = pure (report, none)
    run_users now dry_run date report (u ∷ rest) = do
      alive ← attempt (gets (λ t. tt))
      elim alive [
        | err e ↦ pure (report, some e)
        | ok x ↦ do next ← run_user now dry_run date report u; run_users now dry_run date next rest
      ]

    abbrev pub run_date : Time → RunOptions → Time
    run_date now options = elim options.date [ none ↦ utc_date now | some date ↦ utc_date date ]

    -- `Run`
    unfoldable pub run : Time → RunOptions → Exec (PlatformTables F p) (RunReport × Option Error)
    unfolding active_users run_users
    run now options = do
      users ← active_users options.user_id
      run_users now options.dry_run (run_date now options)
          (record {
            date = run_date now options;
            total = length users;
            succeeded = 0;
            user_errors = [];
          })
          users
