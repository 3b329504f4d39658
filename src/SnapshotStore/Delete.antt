-- ===== src/SnapshotStore/Delete.antt =====
-- What `Delete` and `ForceDelete` remove.
use portfolio_dashboard.Prelude.{
  ◌≡◌, ◌≢◌, ◌⊎◌, inl, inr, Bool, true, false, [], ◌∷◌, none, some, All, arith,
}
use portfolio_dashboard.Clock.{Time, utc_date}
use portfolio_dashboard.Errors.{ok}
use portfolio_dashboard.Domain.{ObjectId}
use portfolio_dashboard.Snapshot.{SnapshotSource, RegionSnapshot, PortfolioSnapshot, is_cron}
use portfolio_dashboard.Mongo.{Mongo, Tables, snapshot_key_eq}
use portfolio_dashboard.Exec.{World}
use portfolio_dashboard.SnapshotStore.{Regions, has_cron_region, find_snapshot, delete_snapshot}

module _ {F : Type 0} (m : Mongo F) where
  not_cron : (r : RegionSnapshot F) → is_cron r.source ≡ false → r.source ≢ SnapshotSource.cron
  unfolding is_cron
  not_cron r h e = ground arith

  has_cron_region-All :
      (rs : Regions F) → has_cron_region rs ≡ false → All (λ e. e.1.source ≢ SnapshotSource.cron) rs
  unfolding has_cron_region
  has_cron_region-All [] h = tt
  has_cron_region-All ((k, r) ∷ rs) h =
      (not_cron r (ground arith), has_cron_region-All rs (ground arith))

  -- The day had a row, with no region of cron's unless the delete was forced, and has none after it.
  abbrev pub IsDeleted : Bool → ObjectId → Time → World (Tables F m) → Type 0
  IsDeleted force uid date w =
      (doc : PortfolioSnapshot F) × (find_snapshot m uid date w.stored ≡ some doc)
      × ((force ≡ true) ⊎ All (λ e. e.1.source ≢ SnapshotSource.cron) doc.buckets)
      × (find_snapshot m uid date (delete_snapshot m force uid date w).1.stored ≡ none)

  delete_snapshot-guarded :
      (force : Bool) (uid : ObjectId) (date : Time) (w : World (Tables F m))
      → (delete_snapshot m force uid date w).0 ≡ ok tt
      → (doc : PortfolioSnapshot F) × (find_snapshot m uid date w.stored ≡ some doc)
        × ((force ≡ true) ⊎ (has_cron_region doc.buckets ≡ false))
        × (find_snapshot m uid date (delete_snapshot m force uid date w).1.stored ≡ none)
  unfolding delete_snapshot
  delete_snapshot-guarded force uid date w h =
      ground (
        arith,
        m.snapshots.find-remove (uid, utc_date date) (uid, utc_date date) w.stored.snapshots,
      )

  -- A delete that ends well, whatever the database would fail later, found a row, with no region of cron's
  -- unless it was forced, and no such row is left.
  pub delete_snapshot-ok :
      (force : Bool) (uid : ObjectId) (date : Time) (w : World (Tables F m))
      → (delete_snapshot m force uid date w).0 ≡ ok tt
      → IsDeleted force uid date w
  delete_snapshot-ok force uid date w h =
      let (doc, found, guard, gone) = delete_snapshot-guarded force uid date w h in
      (
        doc,
        found,
        elim guard [
          | inl forced ↦ inl forced
          | inr none_of_cron ↦ inr (has_cron_region-All doc.buckets none_of_cron)
        ],
        gone,
      )
