-- ===== src/SnapshotStore/Upsert.antt =====
-- What `Upsert` writes, and what it leaves alone.
use portfolio_dashboard.Prelude.{
  ◌≡◌, ◌⊎◌, false, Option, none, some, [], String, if◌then◌else◌, ◌==◌, ==_refl, arith, refl,
  string_eq, ap, sym, ◌∙◌,
}
use mathlib.Core.Path.{subst}
use portfolio_dashboard.Prelude.Assoc.{lookup}
use portfolio_dashboard.Clock.{Time, utc_date}
use portfolio_dashboard.Errors.{ok}
use portfolio_dashboard.Snapshot.{RegionSnapshot, PortfolioSnapshot}
use portfolio_dashboard.Mongo.{Mongo, Tables, SnapshotKey, snapshot_key_eq}
use portfolio_dashboard.Exec.{World, healthy}
use portfolio_dashboard.SnapshotStore.{
  Regions, is_refused, upserted, merged_snapshot, new_snapshot, upsert, find_snapshot, put_snapshot,
}
use portfolio_dashboard.SnapshotStore.Merge.{
  IsMap, manual_only, first_of, lookup-merge, IsMap-merge,
}

abbrev pub stored_regions : {F : Type 0} → Option (PortfolioSnapshot F) → Regions F
stored_regions none = []
stored_regions (some s) = s.buckets

module _ {F : Type 0} (m : Mongo F) where
  -- With a database that answers, an accepted upsert ends well and leaves at its key the new row, or the
  -- merge with the old one.
  pub upsert-accepted :
      (now : Time) (snap : PortfolioSnapshot F) (t : Tables F m)
      → is_refused snap ≡ false
      → upsert m now snap (healthy t) ≡ (
        ok tt,
        healthy (
            put_snapshot m snap.user_id snap.date
              (upserted now snap (find_snapshot m snap.user_id snap.date t))
              t),
      )
  unfolding upsert
  upsert-accepted now snap t h = rw h

  -- The tables after an upsert in a database that answers.
  abbrev pub after_upsert : Time → PortfolioSnapshot F → Tables F m → Tables F m
  after_upsert now snap t = (upsert m now snap (healthy t)).1.stored

  abbrev pub IsStoredMap : PortfolioSnapshot F → Tables F m → Type 0
  IsStoredMap snap t = IsMap (stored_regions (find_snapshot m snap.user_id snap.date t))

  pub regions-upserted :
      (now : Time) (snap : PortfolioSnapshot F) (o : Option (PortfolioSnapshot F)) (k : String)
      → IsMap (stored_regions o)
      → lookup k (upserted now snap o).buckets
        ≡ first_of (manual_only (lookup k (stored_regions o))) (lookup k snap.buckets)
  unfolding upserted new_snapshot merged_snapshot
  regions-upserted now snap none k h = unfold lookup in refl
  regions-upserted now snap (some s) k h = lookup-merge k s.buckets snap.buckets h

  after_upsert-eq :
      (now : Time) (snap : PortfolioSnapshot F) (t : Tables F m)
      → is_refused snap ≡ false
      → after_upsert now snap t
        ≡ put_snapshot m snap.user_id snap.date
            (upserted now snap (find_snapshot m snap.user_id snap.date t))
            t
  after_upsert-eq now snap t h = ap (λ r. r.1.stored) (upsert-accepted now snap t h)

  find-after_upsert :
      (now : Time) (snap : PortfolioSnapshot F) (t : Tables F m)
      → is_refused snap ≡ false
      → find_snapshot m snap.user_id snap.date (after_upsert now snap t)
        ≡ some (upserted now snap (find_snapshot m snap.user_id snap.date t))
  find-after_upsert now snap t h =
      let key : SnapshotKey = (snap.user_id, utc_date snap.date) in
      let doc = upserted now snap (find_snapshot m snap.user_id snap.date t) in
      ap (find_snapshot m snap.user_id snap.date) (after_upsert-eq now snap t h)
      ∙ (m.snapshots.find-put key key doc t.snapshots
          ∙ ap (λ b. if b then some doc else m.snapshots.find key t.snapshots) (==_refl key))

  -- Between the tables before and after: a region that the user had overridden is still stored as it was,
  -- every other is the incoming one or absent with it, and no row of another day or user has changed.
  abbrev pub IsMerged : PortfolioSnapshot F → Tables F m → Tables F m → Type 0
  IsMerged snap before after =
      ((k : String)
        → lookup k (stored_regions (find_snapshot m snap.user_id snap.date after))
          ≡ first_of
              (manual_only
                (lookup k (stored_regions (find_snapshot m snap.user_id snap.date before))))
              (lookup k snap.buckets))
      × ((j : SnapshotKey)
          → ((snap.user_id, utc_date snap.date) == j) ≡ false
          → m.snapshots.find j after.snapshots ≡ m.snapshots.find j before.snapshots)

  -- After an accepted upsert, in a database that answers and with no key twice in the stored row, every
  -- region that the user had overridden is stored as it was, every other is the incoming one or absent with
  -- it, and no row of another day or user has changed.
  pub upsert_regions :
      (now : Time) (snap : PortfolioSnapshot F) (t : Tables F m)
      → is_refused snap ≡ false
      → IsStoredMap snap t
      → IsMerged snap t (after_upsert now snap t)
  upsert_regions now snap t h map =
      let found = find_snapshot m snap.user_id snap.date t in
      (
        λ k.
            ap (λ o. lookup k (stored_regions o)) (find-after_upsert now snap t h)
            ∙ regions-upserted now snap found k map,
        λ j ne.
            ap (λ (u : Tables F m). m.snapshots.find j u.snapshots) (after_upsert-eq now snap t h)
            ∙ (m.snapshots.find-put (snap.user_id, utc_date snap.date) j (upserted now snap found)
                  t.snapshots
                ∙ ap
                    (λ b.
                      if b then some (upserted now snap found) else m.snapshots.find j t.snapshots)
                    ne),
      )

  first_of_idem :
      (o r : Option (RegionSnapshot F))
      → first_of (manual_only (first_of (manual_only o) r)) r ≡ first_of (manual_only o) r
  first_of_idem none none = refl
  first_of_idem none (some r) = ground arith
  first_of_idem (some s) none = ground arith
  first_of_idem (some s) (some r) = ground arith

  pub IsMap-upserted :
      (now : Time) (snap : PortfolioSnapshot F) (o : Option (PortfolioSnapshot F))
      → IsMap snap.buckets
      → IsMap (stored_regions o)
      → IsMap (upserted now snap o).buckets
  unfolding upserted new_snapshot merged_snapshot
  IsMap-upserted now snap none g h = g
  IsMap-upserted now snap (some s) g h = IsMap-merge s.buckets snap.buckets h

  -- A re-run of an accepted upsert leaves every region of its row as the first run left it, in a database
  -- that answers and with no key twice in the incoming and the stored row.
  pub upsert_twice :
      (now later : Time) (snap : PortfolioSnapshot F) (t : Tables F m)
      → is_refused snap ≡ false
      → IsMap snap.buckets
      → IsStoredMap snap t
      → (k : String)
      → lookup k (
          stored_regions (
            find_snapshot m snap.user_id snap.date
              (after_upsert later snap (after_upsert now snap t))))
        ≡ lookup k
            (stored_regions (find_snapshot m snap.user_id snap.date (after_upsert now snap t)))
  upsert_twice now later snap t h g map k =
      let found = find_snapshot m snap.user_id snap.date t in
      let once = after_upsert now snap t in
      let stored_once : IsStoredMap snap once =
        subst (λ o. IsMap (stored_regions o)) (sym (find-after_upsert now snap t h))
          (IsMap-upserted now snap found g map) in
      let first = (upsert_regions now snap t h map).0 k in
      (upsert_regions later snap once h stored_once).0 k
      ∙ (ap (λ o. first_of (manual_only o) (lookup k snap.buckets)) first
          ∙ (first_of_idem (lookup k (stored_regions found)) (lookup k snap.buckets) ∙ sym first))

  -- Whatever fails, an upsert stores nothing or the one row that it builds.
  pub upsert-cases :
      (now : Time) (snap : PortfolioSnapshot F) (w : World (Tables F m))
      → ((upsert m now snap w).1.stored ≡ w.stored)
        ⊎ ((upsert m now snap w).1.stored
            ≡ put_snapshot m snap.user_id snap.date
                (upserted now snap (find_snapshot m snap.user_id snap.date w.stored))
                w.stored)
  unfolding upsert
  upsert-cases now snap w = ground arith
