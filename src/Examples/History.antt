-- ===== src/Examples/History.antt =====
-- Rows added, pasted and overridden by hand beside a stored one.
use portfolio_dashboard.Prelude.{◌≡◌, refl, some, [], ◌∷◌, ◌+◌, ◌*◌}
use portfolio_dashboard.Prelude.Assoc.{lookup, insert}
use portfolio_dashboard.Clock.{Time, day_length, utc_date}
use portfolio_dashboard.Snapshot.{SnapshotSource, is_valid_source}
use portfolio_dashboard.Mongo.{snapshot_key_eq}
use portfolio_dashboard.Exec.{healthy}
use portfolio_dashboard.SnapshotStore.{
  Regions, get_snapshot, upsert, upserted, is_refused, has_invalid_source,
}
use portfolio_dashboard.SnapshotStore.Upsert.{stored_regions}
use portfolio_dashboard.History.{
  AddRowInput, add, insert_row, row_by_hand, manual_row, patch_row, paste, validate_regions,
  parse_date_not_future, plain_row, original_cron_for,
}
use portfolio_dashboard.History.Add.{IsAdded, add-added}
use portfolio_dashboard.History.Safety.{paste-KeepsRows}
use portfolio_dashboard.History.Anchors.{anchor_of, patch_row-anchor_of}
use portfolio_dashboard.Examples.Whole.{ℤ, pos, whole_double}
use portfolio_dashboard.Examples.Memory.{in_memory}
use portfolio_dashboard.Examples.Snapshots.{region, stored, typed}

abbrev now : Time
now = 40 * day_length + 9

abbrev rupees : ℤ → Regions ℤ
rupees amount = ("INR", region SnapshotSource.unset amount) ∷ []

abbrev new_row : AddRowInput ℤ
new_row = record { date = some (30 * day_length); regions = rupees (pos 5) }

abbrev same_row : AddRowInput ℤ
same_row = record { date = some (20 * day_length); regions = rupees (pos 5) }

add-added_example :
    IsAdded
      (in_memory ℤ)
      now
      7
      (30 * day_length)
      (rupees (pos 5))
      stored
      (add (in_memory ℤ) now 7 new_row (healthy stored)).1.stored
      (plain_row (row_by_hand 7 (30 * day_length) (rupees (pos 5))))
unfolding add insert_row get_snapshot parse_date_not_future validate_regions utc_date lookup upsert
    upserted is_refused has_invalid_source is_valid_source insert row_by_hand manual_row
add-added_example =
    add-added (in_memory ℤ) now 7 (30 * day_length) (rupees (pos 5)) (healthy stored)
      (plain_row (row_by_hand 7 (30 * day_length) (rupees (pos 5)))) refl

-- The paste has a row for the stored day and one for another.
paste-KeepsRows_example :
    lookup
      (7, 20 * day_length)
      (paste
        (in_memory ℤ)
        now
        7
        (some (0, 60 * day_length))
        (same_row ∷ new_row ∷ [])
        (healthy stored)).1.stored.snapshots
    ≡ some typed
unfolding lookup
paste-KeepsRows_example =
    paste-KeepsRows (in_memory ℤ) now 7 (some (0, 60 * day_length)) (same_row ∷ new_row ∷ [])
      (healthy stored) (7, 20 * day_length) typed refl

patch_row-anchor_of_example :
    anchor_of "EUR" (
      stored_regions (
        lookup
          (7, 20 * day_length)
          (patch_row
            (in_memory ℤ)
            now
            7
            (some (20 * day_length))
            (("EUR", region SnapshotSource.unset (pos 8)) ∷ [])
            (healthy stored)).1.stored.snapshots))
    ≡ anchor_of "EUR" (stored_regions (lookup (7, 20 * day_length) stored.snapshots))
patch_row-anchor_of_example =
    patch_row-anchor_of (in_memory ℤ) now 7 (some (20 * day_length))
      (("EUR", region SnapshotSource.unset (pos 8)) ∷ []) (healthy stored) (7, 20 * day_length)
      "EUR"

euros :
    anchor_of "EUR" (stored_regions (lookup (7, 20 * day_length) stored.snapshots))
    ≡ (some (pos 2), some (pos 2))
unfolding original_cron_for lookup
euros = refl
