-- ===== src/History/Safety.antt =====
-- A paste never overwrites the history.
use portfolio_dashboard.Prelude.{
  ◌≡◌, ==_iff, List, [], ◌∷◌, Option, none, some, arith, Option-cases, inl, inr,
}
use portfolio_dashboard.Clock.{Time, utc_date}
use portfolio_dashboard.Double.{Double}
use portfolio_dashboard.Domain.{ObjectId}
use portfolio_dashboard.Snapshot.{PortfolioSnapshot}
use portfolio_dashboard.Mongo.{Mongo, Tables, SnapshotKey, snapshot_key_eq}
use portfolio_dashboard.Exec.{World}
use portfolio_dashboard.Exec.Steps.{Steps-pure, Steps-bind, Steps, IsPreorder}
use portfolio_dashboard.SnapshotStore.{Regions, upsert, upserted, get_snapshot}
use portfolio_dashboard.History.{
  AddRowInput, PasteReport, parse_date_not_future, row_by_hand, paste_valid, paste_row, paste_rows,
  paste,
}

module _ {F : Type 0} ⦃d : Double F⦄ (m : Mongo F) (now : Time) where
  -- Every row that was stored is stored unchanged.
  abbrev pub KeepsRows : Tables F m → Tables F m → Type 0
  KeepsRows s t =
      (j : SnapshotKey) (x : PortfolioSnapshot F)
      → m.snapshots.find j s.snapshots ≡ some x
      → m.snapshots.find j t.snapshots ≡ some x

  KeepsRows-IsPreorder : IsPreorder KeepsRows
  KeepsRows-IsPreorder = record {
    reflexive = λ s j x h. h;
    transitive = λ r s t f g j x h. g j x (f j x h);
  }

  paste_valid-KeepsRows :
      (uid : ObjectId) (date : Time) (rs : Regions F) (report : PasteReport F)
      (w : World (Tables F m))
      → KeepsRows w.stored (paste_valid m now uid date rs report w).1.stored
  unfolding paste_valid get_snapshot row_by_hand upsert
  paste_valid-KeepsRows uid date rs report w j x h = ground (
    arith,
    ==_iff (uid, utc_date date) j,
    m.snapshots.find-put (uid, utc_date date) j (upserted now (row_by_hand uid date rs) none)
        w.stored.snapshots,
  )

  paste_row-Steps :
      (uid : ObjectId) (month_start next_month : Time) (row : AddRowInput F)
      (report : PasteReport F)
      → Steps KeepsRows (paste_row m now uid month_start next_month row report)
  unfolding paste_row parse_date_not_future
  paste_row-Steps uid month_start next_month row report = record {
    at = λ w j x h. elim (Option-cases row.date) [
      | inl malformed ↦ ground arith
      | inr (d, parsed) ↦
          ground (arith, paste_valid-KeepsRows uid (utc_date d) row.regions report w j x h)
    ];
  }

  paste_rows-Steps :
      (uid : ObjectId) (month_start next_month : Time) (rows : List (AddRowInput F))
      (report : PasteReport F)
      → Steps KeepsRows (paste_rows m now uid month_start next_month rows report)
  unfolding paste_rows
  paste_rows-Steps uid month_start next_month [] report =
      Steps-pure KeepsRows KeepsRows-IsPreorder report
  paste_rows-Steps uid month_start next_month (row ∷ rows) report =
      Steps-bind KeepsRows KeepsRows-IsPreorder
        (paste_row m now uid month_start next_month row report)
        (paste_rows m now uid month_start next_month rows)
        (paste_row-Steps uid month_start next_month row report)
        (paste_rows-Steps uid month_start next_month rows)

  -- A paste changes and removes no row that was stored before it, whichever rows it holds and whichever
  -- calls of the database fail.
  pub paste-KeepsRows :
      (uid : ObjectId) (month : Option (Time × Time)) (rows : List (AddRowInput F))
      (w : World (Tables F m)) (j : SnapshotKey) (x : PortfolioSnapshot F)
      → m.snapshots.find j w.stored.snapshots ≡ some x
      → m.snapshots.find j (paste m now uid month rows w).1.stored.snapshots ≡ some x
  unfolding paste
  paste-KeepsRows uid none rows w j x h = h
  paste-KeepsRows uid (some (month_start, next_month)) rows w j x h =
      (paste_rows-Steps uid month_start next_month rows
          (record { applied = []; conflicts = []; rejected = [] })).at
        w j x h
