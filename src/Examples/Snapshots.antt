-- ===== src/Examples/Snapshots.antt =====
-- Snapshots: buckets, merges with overridden regions, deletes, and ledgers as of a day.
use portfolio_dashboard.Prelude.{
  ◌+◌, ◌*◌, ◌≡◌, ◌⊎◌, refl, true, false, Option, none, some, List, [], ◌∷◌, arith, String,
  string_eq,
}
use portfolio_dashboard.Prelude.Assoc.{lookup, insert}
use portfolio_dashboard.Clock.{day_length, utc_date}
use portfolio_dashboard.Errors.{ok, err, bad_snapshot}
use portfolio_dashboard.Snapshot.{
  SnapshotSource, RegionSnapshot, HoldingSnapshot, PortfolioSnapshot, is_manual, is_cron,
  is_valid_source, zero_cron, zero_region, buckets_from_lines, round2,
}
use portfolio_dashboard.Snapshot.Buckets.{lookup-buckets_from_lines, bucket_of}
use portfolio_dashboard.Mongo.{Tables, snapshot_key_eq}
use portfolio_dashboard.Exec.{healthy}
use portfolio_dashboard.SnapshotStore.{
  is_refused, has_invalid_source, has_cron_region, manual_regions, merge_regions, upserted,
  merged_snapshot, upsert, delete_snapshot, find_snapshot,
}
use portfolio_dashboard.SnapshotStore.Upsert.{
  upsert_regions, upsert_twice, after_upsert, stored_regions, IsMerged,
}
use portfolio_dashboard.SnapshotStore.Refusal.{IsAcceptable, upsert-IsAcceptable}
use portfolio_dashboard.SnapshotStore.Delete.{delete_snapshot-ok, IsDeleted}
use portfolio_dashboard.Heal.{as_of_ledger, recompute_from}
use portfolio_dashboard.Heal.AsOf.{as_of_ledger-as_of_ledger}
use portfolio_dashboard.Heal.Scope.{Kept, recompute_from-Kept}
use portfolio_dashboard.Examples.Whole.{ℤ, pos, whole_double}
use portfolio_dashboard.Examples.Memory.{in_memory, no_tables}
use portfolio_dashboard.Examples.Ledgers.{bought, sold, paid}

abbrev line : String → ℤ → ℤ → HoldingSnapshot ℤ
line currency invested current = record {
  symbol = "TCS.NS";
  script = "TCS";
  currency = currency;
  quantity = pos 1;
  avg_cost = invested;
  close_price = current;
  price_date = none;
  invested = invested;
  current = current;
}

abbrev lines : List (HoldingSnapshot ℤ)
lines =
    line "INR" (pos 100) (pos 120) ∷ line "EUR" (pos 7) (pos 9) ∷ line "INR" (pos 50) (pos 40) ∷ []

lookup-buckets_from_lines_example :
    lookup "INR" (buckets_from_lines lines) ≡ some (bucket_of "INR" lines)
lookup-buckets_from_lines_example = lookup-buckets_from_lines "INR" lines refl

rupees : bucket_of "INR" lines ≡ record zero_cron { invested = pos 150; current = pos 160 }
unfolding round2
rupees = refl

abbrev pub region : SnapshotSource → ℤ → RegionSnapshot ℤ
region source amount = record zero_region { invested = amount; current = amount; source = source }

abbrev snapshot : RegionSnapshot ℤ → RegionSnapshot ℤ → PortfolioSnapshot ℤ
snapshot rupee euro = record {
  user_id = 7;
  date = 20 * day_length + 5;
  currency = "INR";
  buckets = ("INR", rupee) ∷ ("EUR", euro) ∷ [];
  lines = some [];
  created_at = 0;
  updated_at = 0;
}

-- The owner has typed the rupees; the job comes with other amounts.
abbrev pub typed : PortfolioSnapshot ℤ
typed = snapshot (region SnapshotSource.manual (pos 1)) (region SnapshotSource.cron (pos 2))

abbrev incoming : PortfolioSnapshot ℤ
incoming = snapshot (region SnapshotSource.cron (pos 3)) (region SnapshotSource.cron (pos 4))

abbrev pub stored : Tables ℤ (in_memory ℤ)
stored = record (no_tables ℤ) { snapshots = ((7, 20 * day_length), typed) ∷ [] }

abbrev amount_of : Option (RegionSnapshot ℤ) → Option ℤ
amount_of none = none
amount_of (some r) = some r.invested

merged :
    (amount_of (
        lookup "INR" (
          stored_regions (
            find_snapshot
              (in_memory ℤ)
              7
              (20 * day_length)
              (after_upsert (in_memory ℤ) 9 incoming stored))))
      ≡ some (pos 1))
    × (amount_of (
          lookup "EUR" (
            stored_regions (
              find_snapshot
                (in_memory ℤ)
                7
                (20 * day_length)
                (after_upsert (in_memory ℤ) 9 incoming stored))))
        ≡ some (pos 4))
unfolding upsert upserted merged_snapshot merge_regions manual_regions is_manual is_refused
    has_invalid_source is_valid_source lookup insert utc_date
merged = (refl, refl)

upsert_regions_example :
    IsMerged (in_memory ℤ) incoming stored (after_upsert (in_memory ℤ) 9 incoming stored)
unfolding is_refused has_invalid_source is_valid_source lookup utc_date
upsert_regions_example = upsert_regions (in_memory ℤ) 9 incoming stored refl (refl, (refl, tt))

upsert_twice_example :
    lookup "INR" (
      stored_regions (
        find_snapshot
          (in_memory ℤ)
          7
          (20 * day_length + 5)
          (after_upsert (in_memory ℤ) 10 incoming (after_upsert (in_memory ℤ) 9 incoming stored))))
    ≡ lookup "INR" (
        stored_regions (
          find_snapshot
            (in_memory ℤ)
            7
            (20 * day_length + 5)
            (after_upsert (in_memory ℤ) 9 incoming stored)))
unfolding is_refused has_invalid_source is_valid_source lookup utc_date
upsert_twice_example =
    upsert_twice (in_memory ℤ) 9 10 incoming stored refl (refl, (refl, tt)) (refl, (refl, tt)) "INR"

upsert-IsAcceptable_example :
    (IsAcceptable incoming × ((upsert (in_memory ℤ) 9 incoming (healthy stored)).0 ≡ ok tt))
    ⊎ ((¬ IsAcceptable incoming)
        × (upsert (in_memory ℤ) 9 incoming (healthy stored) ≡ (err bad_snapshot, healthy stored)))
upsert-IsAcceptable_example = upsert-IsAcceptable (in_memory ℤ) 9 incoming stored

delete_snapshot-ok_example : IsDeleted (in_memory ℤ) true 7 (20 * day_length + 5) (healthy stored)
unfolding delete_snapshot has_cron_region is_cron lookup utc_date
delete_snapshot-ok_example =
    delete_snapshot-ok (in_memory ℤ) true 7 (20 * day_length + 5) (healthy stored) refl

earlier_ledger_of_later :
    as_of_ledger (11 * day_length) (as_of_ledger (16 * day_length) (bought ∷ paid ∷ sold ∷ []))
    ≡ as_of_ledger (11 * day_length) (bought ∷ paid ∷ sold ∷ [])
earlier_ledger_of_later =
    as_of_ledger-as_of_ledger (11 * day_length) (16 * day_length) (bought ∷ paid ∷ sold ∷ [])
      (omega arith)

-- One of the heal's calls fails.
recompute_from-Kept_example :
    Kept
      (in_memory ℤ)
      7
      (utc_date (19 * day_length))
      (utc_date (21 * day_length))
      stored
      (recompute_from
        (in_memory ℤ)
        (λ s. s)
        (21 * day_length)
        7
        (19 * day_length)
        (record { stored = stored; faults = false ∷ false ∷ false ∷ false ∷ true ∷ [] })).1.stored
recompute_from-Kept_example =
    recompute_from-Kept (in_memory ℤ) (λ s. s) (21 * day_length) (19 * day_length) 7
      (record { stored = stored; faults = false ∷ false ∷ false ∷ false ∷ true ∷ [] })
