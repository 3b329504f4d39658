-- ===== src/SnapshotStore.antt =====
-- persistence/snapshots.go: the store of daily snapshots. `now` is the clock's answer.
pub mod Reads
pub mod Merge
pub mod Upsert
pub mod Refusal
pub mod Delete
use portfolio_dashboard.Prelude.{
  ℕ, ◌≡◌, Bool, true, false, not, ◌&&◌, ◌||◌, Option, none, some, List, [], ◌∷◌, String,
  if◌then◌else◌, leb, ltb, exists, nat_beq, string_eq,
}
use portfolio_dashboard.Prelude.Assoc.{Assoc, lookup, insert}
use portfolio_dashboard.Clock.{Time, utc_date}
use portfolio_dashboard.Errors.{Error, not_found, cron_protected, bad_snapshot, Result, ok, err}
use portfolio_dashboard.Domain.{ObjectId}
use portfolio_dashboard.Snapshot.{
  SnapshotSource, is_valid_source, is_manual, is_cron, RegionSnapshot, PortfolioSnapshot,
}
use portfolio_dashboard.Mongo.{Mongo, Tables, SnapshotKey}
use portfolio_dashboard.Exec.{Exec, World, pure, raise, call, gets, modify, ◌>>=◌, ◌>>◌}

abbrev pub Regions : Type 0 → Type 0
Regions F = Assoc String (RegionSnapshot F)

-- The first loop of the merge: the stored regions that the user has overridden.
unfoldable pub manual_regions : {F : Type 0} → Regions F → Regions F
manual_regions [] = []
manual_regions ((k, v) ∷ m) =
    let rest = manual_regions m in if is_manual v.source then (k, v) ∷ rest else rest

-- The second loop: an incoming region never replaces one that is kept.
unfoldable pub merge_regions : {F : Type 0} → Regions F → Regions F → Regions F
merge_regions [] merged = merged
merge_regions ((k, v) ∷ m) merged =
    merge_regions m (elim (lookup k merged) [ some kept ↦ merged | none ↦ insert k v merged ])

-- `regions.k = r` with source manual, for each region of the request.
unfoldable pub set_regions : {F : Type 0} → Regions F → Regions F → Regions F
set_regions [] m = m
set_regions ((k, r) ∷ rs) m =
    set_regions rs (insert k (record r { source = SnapshotSource.manual }) m)

unfoldable pub has_invalid_source : {F : Type 0} → Regions F → Bool
has_invalid_source = exists (λ e. not (is_valid_source e.1.source))

unfoldable pub has_cron_region : {F : Type 0} → Regions F → Bool
has_cron_region = exists (λ e. is_cron e.1.source)

abbrev pub is_empty {ℓ} : {A : Type ℓ} → List A → Bool
is_empty [] = true
is_empty (x ∷ xs) = false

module _ {F : Type 0} where
  -- The `$set` of an existing row.
  unfoldable pub merged_snapshot :
      Time → PortfolioSnapshot F → PortfolioSnapshot F → PortfolioSnapshot F
  merged_snapshot now snap existing = record existing {
    buckets = merge_regions snap.buckets (manual_regions existing.buckets);
    lines = snap.lines;
    currency = snap.currency;
    updated_at = now;
  }

  -- The document of an insert.
  unfoldable pub new_snapshot : Time → PortfolioSnapshot F → PortfolioSnapshot F
  new_snapshot now snap = record snap {
    date = utc_date snap.date;
    created_at = now;
    updated_at = now;
  }

  unfoldable pub is_refused : PortfolioSnapshot F → Bool
  unfolding has_invalid_source
  is_refused snap =
      nat_beq snap.user_id 0 || is_empty snap.buckets || has_invalid_source snap.buckets

  -- What `Upsert` writes in place of what it found.
  unfoldable pub upserted :
      Time → PortfolioSnapshot F → Option (PortfolioSnapshot F) → PortfolioSnapshot F
  upserted now snap none = new_snapshot now snap
  upserted now snap (some existing) = merged_snapshot now snap existing

  -- `List`: the rows with from ≤ date ≤ to.
  unfoldable pub in_window : ObjectId → Time → Time → PortfolioSnapshot F → Bool
  in_window uid from to s =
      nat_beq s.user_id uid && leb (utc_date from) s.date && leb s.date (utc_date to)

abbrev first {ℓ} : {A : Type ℓ} → List A → Option A
first [] = none
first (x ∷ xs) = some x

module _ {F : Type 0} (m : Mongo F) where
  -- `snapshotFilter`
  abbrev pub find_snapshot : ObjectId → Time → Tables F m → Option (PortfolioSnapshot F)
  find_snapshot uid date t = m.snapshots.find (uid, utc_date date) t.snapshots

  abbrev pub put_snapshot : ObjectId → Time → PortfolioSnapshot F → Tables F m → Tables F m
  put_snapshot uid date doc t = record t {
    snapshots = m.snapshots.put (uid, utc_date date) doc t.snapshots;
  }

  abbrev pub remove_snapshot : ObjectId → Time → Tables F m → Tables F m
  remove_snapshot uid date t = record t {
    snapshots = m.snapshots.remove (uid, utc_date date) t.snapshots;
  }

  unfoldable pub upsert : Time → PortfolioSnapshot F → Exec (Tables F m) (Unit {0})
  unfolding is_refused upserted
  upsert now snap = if is_refused snap then raise bad_snapshot else do
    existing ← gets (find_snapshot snap.user_id snap.date)
    modify (put_snapshot snap.user_id snap.date (upserted now snap existing))

  -- `Get`
  unfoldable pub get_snapshot : ObjectId → Time → Exec (Tables F m) (PortfolioSnapshot F)
  get_snapshot uid date = do
    found ← gets (find_snapshot uid date)
    elim found [ none ↦ raise not_found | some doc ↦ pure doc ]

  unfoldable pub list_snapshots :
      ObjectId → Time → Time → Exec (Tables F m) (List (PortfolioSnapshot F))
  list_snapshots uid from to = gets (λ t. m.snapshots.query (in_window uid from to) t.snapshots)

  -- `LatestBefore`: the first of the earlier rows, newest first.
  unfoldable pub latest_before : ObjectId → Time → Exec (Tables F m) (Option (PortfolioSnapshot F))
  latest_before uid date = gets (λ t.
      first
        (m.snapshots.query (λ s. nat_beq s.user_id uid && ltb s.date (utc_date date)) t.snapshots))

  -- `PatchRegions`, one `UpdateOne` for all the regions.
  unfoldable pub set_stored_regions :
      Time → ObjectId → Time → Regions F → Tables F m → Result (Unit {0}) × Tables F m
  set_stored_regions now uid date rs t = elim (find_snapshot uid date t) [
    | none ↦ (err not_found, t)
    | some doc ↦ (
      ok tt,
      put_snapshot uid date (record doc { buckets = set_regions rs doc.buckets; updated_at = now })
          t,
    )
  ]

  unfoldable pub patch_regions : Time → ObjectId → Time → Regions F → Exec (Tables F m) (Unit {0})
  unfolding set_stored_regions
  patch_regions now uid date rs =
      if is_empty rs then raise bad_snapshot else call (set_stored_regions now uid date rs)

  -- `deleteInternal`; `Delete` is without force and `ForceDelete` with it.
  unfoldable pub delete_snapshot : Bool → ObjectId → Time → Exec (Tables F m) (Unit {0})
  delete_snapshot force uid date = do
    found ← gets (find_snapshot uid date)
    elim found [
      | none ↦ raise not_found
      | some doc ↦
          if not force && has_cron_region doc.buckets
          then raise cron_protected
          else modify (remove_snapshot uid date)
    ]
