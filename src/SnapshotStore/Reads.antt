-- ===== src/SnapshotStore/Reads.antt =====
-- What a read of one snapshot leaves and tells.
use portfolio_dashboard.Prelude.{◌≡◌, refl, Bool, true, false, List, [], ◌∷◌, Option, none, some}
use portfolio_dashboard.Clock.{Time}
use portfolio_dashboard.Domain.{ObjectId}
use portfolio_dashboard.Snapshot.{PortfolioSnapshot}
use portfolio_dashboard.Mongo.{Mongo, Tables}
use portfolio_dashboard.Exec.{World, Exec, ◌>>=◌}
use portfolio_dashboard.SnapshotStore.{find_snapshot, get_snapshot}

module _ {F : Type 0} (m : Mongo F) (uid : ObjectId) (date : Time) where
  -- What a block leaves that starts by reading the row: the tables as they were, or what the rest of the
  -- block leaves of them with the stored row.
  pub get_snapshot-bind :
      {B : Type 0} (R : Tables F m → Type 0) (f : PortfolioSnapshot F → Exec (Tables F m) B)
      (w : World (Tables F m))
      → R w.stored
      → ((row : PortfolioSnapshot F) (faults : List Bool)
          → find_snapshot m uid date w.stored ≡ some row
          → R (f row (record { stored = w.stored; faults = faults })).1.stored)
      → R ((get_snapshot m uid date >>= f) w).1.stored
  unfolding get_snapshot
  get_snapshot-bind R f w h k = go w.faults (find_snapshot m uid date w.stored) refl
    where
      go :
          (faults : List Bool) (o : Option (PortfolioSnapshot F))
          → find_snapshot m uid date w.stored ≡ o
          → R
              ((get_snapshot m uid date >>= f)
                (record { stored = w.stored; faults = faults })).1.stored
      go (true ∷ more) o e = h
      go (false ∷ more) none e = rw e h
      go (false ∷ more) (some row) e = rw e (k row more e)
      go [] none e = rw e h
      go [] (some row) e = rw e (k row [] e)
