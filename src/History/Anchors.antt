-- ===== src/History/Anchors.antt =====
-- Overrides of a day's regions and the cron values that they replace.
use portfolio_dashboard.Prelude.{
  ◌≡◌, ◌==◌, ==_iff, Bool, true, false, List, [], ◌∷◌, Option, none, some, arith, refl, String,
  string_eq, Bool-cases, Option-cases, sym, ◌∙◌, inl, inr, if◌then◌else◌,
}
use portfolio_dashboard.Prelude.Assoc.{lookup, insert, lookup-insert}
use portfolio_dashboard.Clock.{Time, utc_date}
use portfolio_dashboard.Errors.{Error, bad_snapshot, Result, ok, err}
use portfolio_dashboard.Double.{Double}
use portfolio_dashboard.Domain.{ObjectId}
use portfolio_dashboard.Snapshot.{SnapshotSource, RegionSnapshot, PortfolioSnapshot}
use portfolio_dashboard.Mongo.{Mongo, Tables, SnapshotKey, snapshot_key_eq}
use portfolio_dashboard.Exec.Steps.{IsPreorder, Steps, Steps-continue}
use portfolio_dashboard.Exec.{World, Exec, call, raise, pure, ◌>>=◌}
use portfolio_dashboard.SnapshotStore.{
  Regions, is_empty, find_snapshot, get_snapshot, set_regions, set_stored_regions,
  patch_regions as store_regions,
}
use portfolio_dashboard.SnapshotStore.Reads.{get_snapshot-bind}
use portfolio_dashboard.SnapshotStore.Upsert.{stored_regions}
use portfolio_dashboard.History.{
  by_hand, set_anchor, original_cron_for, bucket, override_regions, parse_date_not_future,
  validate_regions, patch_row, patch_existing, plain_row, HistoryRow,
}

module _ {F : Type 0} ⦃d : Double F⦄ where
  -- What is on record of cron's values for a region: its own while it is cron's, the kept ones once it is
  -- manual.
  abbrev pub cron_values : RegionSnapshot F → Option F × Option F
  cron_values r = elim r.source [
    | SnapshotSource.cron ↦ (some r.invested, some r.current)
    | SnapshotSource.manual ↦ (r.original_cron_invested, r.original_cron_current)
    | SnapshotSource.unset ↦ (none, none)
  ]

  abbrev pub anchor_of : String → Regions F → Option F × Option F
  anchor_of k m = elim (lookup k m) [ none ↦ (none, none) | some r ↦ cron_values r ]

  -- An override records them.
  original_cron_for-eq-anchor_of :
      (k : String) (m : Regions F) → original_cron_for (bucket k m) ≡ anchor_of k m
  unfolding original_cron_for
  original_cron_for-eq-anchor_of k m = elim (Option-cases (lookup k m)) [
    | inl missing ↦ ground arith
    | inr (r, found) ↦ ground arith
  ]

  anchor_of-insert :
      (k j : String) (r : RegionSnapshot F) (m : Regions F)
      → anchor_of k (insert j r m) ≡ (if j == k then cron_values r else anchor_of k m)
  anchor_of-insert k j r m = ground (arith, lookup-insert j k r m)

  original_cron_for-override :
      (i j : String) (r : RegionSnapshot F) (stored m : Regions F)
      → anchor_of i m ≡ anchor_of i stored
      → (if j == i
          then cron_values (set_anchor (original_cron_for (bucket j stored)) (by_hand j r))
          else anchor_of i m)
        ≡ anchor_of i stored
  original_cron_for-override i j r stored m h = elim (Bool-cases (j == i)) [
    | inr other ↦ rw other h
    | inl same ↦ rw (same, (==_iff j i).0 same) (original_cron_for-eq-anchor_of i stored)
  ]

  anchor_of-set_regions :
      (k : String) (stored rs m : Regions F)
      → ((j : String) → anchor_of j m ≡ anchor_of j stored)
      → anchor_of k (set_regions (override_regions stored rs) m) ≡ anchor_of k stored
  unfolding set_regions override_regions
  anchor_of-set_regions k stored [] m h = h k
  anchor_of-set_regions k stored ((j, r) ∷ rs) m h =
      anchor_of-set_regions k stored rs _
        (λ i. anchor_of-insert i j _ m ∙ original_cron_for-override i j r stored m (h i))

module _ {F : Type 0} ⦃d : Double F⦄ (m : Mongo F) (now : Time) where
  -- At every key, what cron had last written is on record as before.
  abbrev pub SameAnchors : Tables F m → Tables F m → Type 0
  SameAnchors s t =
      (j : SnapshotKey) (k : String)
      → anchor_of k (stored_regions (m.snapshots.find j t.snapshots))
        ≡ anchor_of k (stored_regions (m.snapshots.find j s.snapshots))

  SameAnchors-IsPreorder : IsPreorder SameAnchors
  SameAnchors-IsPreorder = record {
    reflexive = λ s j k. refl;
    transitive = λ r s t f g j k. g j k ∙ f j k;
  }

  set_stored_regions-SameAnchors :
      (uid : ObjectId) (date : Time) (rs : Regions F) (row : PortfolioSnapshot F) (t : Tables F m)
      → find_snapshot m uid date t ≡ some row
      → SameAnchors t (set_stored_regions m now uid date (override_regions row.buckets rs) t).1
  unfolding set_stored_regions
  set_stored_regions-SameAnchors uid date rs row t found j k =
      rw
        (
          set_stored_regions,
          found,
          m.snapshots.find-put (uid, utc_date date) j
              (record row {
                buckets = set_regions (override_regions row.buckets rs) row.buckets;
                updated_at = now;
              })
              t.snapshots,
        )
        (elim (Bool-cases ((uid, utc_date date) == j)) [
          | inr other ↦ rw other refl
          | inl same ↦
              rw (same, sym ((==_iff (uid, utc_date date) j).0 same), found)
                (anchor_of-set_regions k row.buckets rs row.buckets (λ i. refl))
        ])

  store_regions-SameAnchors :
      (uid : ObjectId) (date : Time) (rs : Regions F) (row : PortfolioSnapshot F)
      (w : World (Tables F m))
      → find_snapshot m uid date w.stored ≡ some row
      → SameAnchors w.stored
          (store_regions m now uid date (override_regions row.buckets rs) w).1.stored
  unfolding store_regions
  store_regions-SameAnchors uid date rs row w found =
      go (is_empty (override_regions row.buckets rs)) w.faults
    where
      write : Exec (Tables F m) (Unit {0})
      write = call (set_stored_regions m now uid date (override_regions row.buckets rs))

      step :
          SameAnchors w.stored
            (set_stored_regions m now uid date (override_regions row.buckets rs) w.stored).1
      step = set_stored_regions-SameAnchors uid date rs row w.stored found

      go :
          (b : Bool) (faults : List Bool)
          → SameAnchors w.stored
              ((if b then raise bad_snapshot else write)
                (record { stored = w.stored; faults = faults })).1.stored
      go true faults j k = refl
      go false (true ∷ more) j k = refl
      go false (false ∷ more) j k = step j k
      go false [] j k = step j k

  read-Steps :
      (uid : ObjectId) (date : Time)
      → Steps SameAnchors (get_snapshot m uid date >>= λ row. pure (plain_row row))
  read-Steps uid date = record {
    at = λ w.
        get_snapshot-bind m uid date (SameAnchors w.stored) (λ row. pure (plain_row row)) w
          (λ j k. refl) (λ row faults found j k. refl);
  }

  patch_existing-SameAnchors :
      (uid : ObjectId) (date : Time) (rs : Regions F) (row : PortfolioSnapshot F)
      (w : World (Tables F m))
      → find_snapshot m uid date w.stored ≡ some row
      → SameAnchors w.stored (patch_existing m now uid date rs row w).1.stored
  unfolding patch_existing
  patch_existing-SameAnchors uid date rs row w found =
      let r = store_regions m now uid date (override_regions row.buckets rs) w in
      SameAnchors-IsPreorder.transitive w.stored r.1.stored
        (patch_existing m now uid date rs row w).1.stored
        (store_regions-SameAnchors uid date rs row w found)
        (Steps-continue SameAnchors SameAnchors-IsPreorder r.0 _ r.1 (λ _. read-Steps uid date))

  -- However the regions of a day are overridden, and whether or not the database fails, what cron last
  -- wrote for each region of each day stays on record: the region's own values while it is cron's, and
  -- the recorded ones once it is manual.
  pub patch_row-anchor_of :
      (uid : ObjectId) (text : Option Time) (rs : Regions F) (w : World (Tables F m))
      (j : SnapshotKey) (k : String)
      → anchor_of k
          (stored_regions (m.snapshots.find j (patch_row m now uid text rs w).1.stored.snapshots))
        ≡ anchor_of k (stored_regions (m.snapshots.find j w.stored.snapshots))
  unfolding patch_row
  patch_row-anchor_of uid text rs w = go (parse_date_not_future now text) (validate_regions rs)
    where
      go :
          (date : Result Time) (o : Option Error)
          → SameAnchors w.stored
              ((elim date as (λ r. Exec (Tables F m) (HistoryRow F)) [
                | err e ↦ raise e
                | ok day ↦ elim o as (λ r. Exec (Tables F m) (HistoryRow F)) [
                  | some e ↦ raise e
                  | none ↦ get_snapshot m uid day >>= patch_existing m now uid day rs
                ]
              ])
                w).1.stored
      go (err e) o j k = refl
      go (ok day) (some e) j k = refl
      go (ok day) none j k =
          get_snapshot-bind m uid day (SameAnchors w.stored) (patch_existing m now uid day rs) w
            (λ j k. refl)
            (λ row faults found.
              patch_existing-SameAnchors uid day rs row
                (record { stored = w.stored; faults = faults }) found)
            j k
