-- ===== src/Examples/Jobs.antt =====
-- Runs of the snapshot job over the super admin and a user with one holding.
use portfolio_dashboard.Prelude.{
  ◌≡◌, ◌+◌, ◌*◌, refl, Bool, true, false, Option, none, some, [], ◌∷◌, String, nat_eq, string_eq,
  arith, length,
}
use portfolio_dashboard.Prelude.Assoc.{lookup, insert}
use portfolio_dashboard.Clock.{Time, day_length}
use portfolio_dashboard.Errors.{database}
use portfolio_dashboard.Domain.{ObjectId, Holding}
use portfolio_dashboard.Exec.{healthy}
use portfolio_dashboard.Heal.{list_holdings}
use portfolio_dashboard.Admin.Platform.{PlatformTables}
use portfolio_dashboard.SnapshotJob.{
  RunOptions, RunReport, run_users, run, run_date, run_user, store_snapshot, build_snapshot,
  prior_by_symbol, is_weekend,
}
use portfolio_dashboard.SnapshotJob.Rows.{HasMaps, KeepsRows, run-KeepsRows, run-dry_run}
use portfolio_dashboard.SnapshotJob.Counts.{counted, Tells, run_users-counted}
use portfolio_dashboard.Examples.Whole.{ℤ, pos, whole_double}
use portfolio_dashboard.Examples.Accounts.{asha}
use portfolio_dashboard.Examples.Admins.{platform, all_tables, root}
use portfolio_dashboard.Examples.Services.{tcs}
use portfolio_dashboard.Examples.Snapshots.{typed}
use portfolio_dashboard.SnapshotStore.Merge.{IsMap}
use portfolio_dashboard.SnapshotStore.Upsert.{stored_regions}
use mathlib.Core.Path.{subst}

abbrev no_upper : String → String
no_upper s = s

abbrev quote : ObjectId → Holding ℤ → Option ℤ
quote uid h = some (pos 90)

abbrev stored : PlatformTables ℤ platform
stored = record all_tables {
  portfolios = record all_tables.portfolios {
    holdings = (1, tcs) ∷ [];
    snapshots = ((7, 20 * day_length), typed) ∷ [];
  };
}

-- The one stored row has the regions INR and EUR.
stored-HasMaps : (date : Time) → HasMaps platform.mongo date stored.portfolios
unfolding lookup
stored-HasMaps date key x h = subst (λ o. IsMap (stored_regions o)) typed_is_x (refl, (refl, tt))
  where
    typed_is_x : some typed ≡ some x
    typed_is_x = ground arith

abbrev every_user : Bool → RunOptions
every_user dry_run = record { date = some (20 * day_length); user_id = none; dry_run = dry_run }

monday : is_weekend 0 ≡ false
unfolding is_weekend
monday = refl

saturday : is_weekend (5 * day_length) ≡ true
unfolding is_weekend
saturday = refl

-- The owner has typed the rupees of the day of the run.
run-KeepsRows_example :
    KeepsRows platform.mongo
      (run_date platform no_upper quote (41 * day_length) (every_user false))
      stored.portfolios
      (run platform no_upper quote
        (41 * day_length)
        (every_user false)
        (healthy stored)).1.stored.portfolios
unfolding lookup
run-KeepsRows_example =
    run-KeepsRows platform no_upper quote (41 * day_length) (every_user false) (healthy stored)
      (stored-HasMaps (20 * day_length))

run-dry_run_example :
    (run platform no_upper quote (41 * day_length) (every_user true) (healthy stored)).1.stored
    ≡ stored
run-dry_run_example =
    run-dry_run platform no_upper quote (41 * day_length) (every_user true) (healthy stored) refl

abbrev empty_report : RunReport
empty_report = record { date = 40 * day_length; total = 2; succeeded = 0; user_errors = [] }

-- The holdings of the first user cannot be read.
run_users-counted_example :
    (counted (record empty_report { succeeded = 1; user_errors = (7, database) ∷ [] })
      ≡ counted empty_report + length (asha ∷ root ∷ []))
    × Tells platform no_upper quote
        (41 * day_length)
        (40 * day_length)
        true
        empty_report
        (asha ∷ root ∷ [])
        (record { stored = stored; faults = false ∷ true ∷ [] })
        (record empty_report { succeeded = 1; user_errors = (7, database) ∷ [] })
unfolding lookup insert run_users run_user store_snapshot build_snapshot list_holdings
    prior_by_symbol is_weekend
run_users-counted_example =
    run_users-counted platform no_upper quote (41 * day_length) (40 * day_length) true empty_report
      (record empty_report { succeeded = 1; user_errors = (7, database) ∷ [] }) (asha ∷ root ∷ [])
      (record { stored = stored; faults = false ∷ true ∷ [] }) ((refl, tt), (tt, tt))
      (refl, (refl, tt)) refl
