-- ===== src/SnapshotJob/Rows.antt =====
-- services/snapshot.go: the rows that a run of the job keeps.
use mathlib.Core.Path.{subst}
use portfolio_dashboard.Prelude.{
  ◌≡◌, refl, sym, ◌∙◌, inl, inr, true, false, Option, none, some, List, [], ◌∷◌, String, string_eq,
  nat_eq, nat_beq, arith, Bool-cases, ◌==◌, ==_iff,
}
use portfolio_dashboard.Prelude.Assoc.{lookup}
use portfolio_dashboard.Clock.{Time, utc_date, utc_date-utc_date}
use portfolio_dashboard.Double.{Double}
use portfolio_dashboard.Domain.{ObjectId, Holding}
use portfolio_dashboard.Snapshot.{
  HoldingSnapshot, PortfolioSnapshot, RegionSnapshot, is_manual, buckets_from_lines, zero_buckets,
  add_lines, round_buckets, all_currencies,
}
use portfolio_dashboard.Mongo.{Mongo, Tables, SnapshotKey, snapshot_key_eq}
use portfolio_dashboard.Exec.{World}
use portfolio_dashboard.Exec.Steps.{Steps, IsPreorder}
use portfolio_dashboard.SnapshotStore.{Regions, upsert, upserted, find_snapshot, put_snapshot}
use portfolio_dashboard.SnapshotStore.Merge.{IsMap, IsMap-insert, manual_only, first_of}
use portfolio_dashboard.SnapshotStore.Upsert.{
  upsert-cases, stored_regions, regions-upserted, IsMap-upserted,
}
use portfolio_dashboard.Admin.Platform.{Platform, PlatformTables}
use portfolio_dashboard.SnapshotJob.{RunOptions, snapshot_of, within_portfolios, run_date, run}
use portfolio_dashboard.SnapshotJob.Reach.{run-at}

IsMap-zero_buckets :
    (F : Type 0) ⦃d : Double F⦄ (cs : List String) → IsMap {F = F} (zero_buckets cs)
unfolding zero_buckets
IsMap-zero_buckets F [] = tt
IsMap-zero_buckets F (c ∷ cs) = IsMap-insert c _ (zero_buckets cs) (IsMap-zero_buckets F cs)

module _ {F : Type 0} ⦃d : Double F⦄ where
  IsMap-add_lines :
      (lines : List (HoldingSnapshot F)) (rs : Regions F) → IsMap rs → IsMap (add_lines lines rs)
  unfolding add_lines
  IsMap-add_lines [] rs h = h
  IsMap-add_lines (ln ∷ lines) rs h = IsMap-add_lines lines _ (IsMap-insert ln.currency _ rs h)

  lookup-round_buckets :
      (k : String) (rs : Regions F) → lookup k rs ≡ none → lookup k (round_buckets rs) ≡ none
  unfolding lookup round_buckets
  lookup-round_buckets k [] h = refl
  lookup-round_buckets k ((c, r) ∷ rs) h = ground (arith, lookup-round_buckets k rs)

  IsMap-round_buckets : (rs : Regions F) → IsMap rs → IsMap (round_buckets rs)
  unfolding round_buckets
  IsMap-round_buckets [] h = h
  IsMap-round_buckets ((c, r) ∷ rs) h = (lookup-round_buckets c rs h.0, IsMap-round_buckets rs h.1)

  IsMap-buckets_from_lines : (lines : List (HoldingSnapshot F)) → IsMap (buckets_from_lines lines)
  unfolding buckets_from_lines
  IsMap-buckets_from_lines lines =
      IsMap-round_buckets _ (IsMap-add_lines lines _ (IsMap-zero_buckets F all_currencies))

  IsMap-stored :
      (o : Option (PortfolioSnapshot F))
      → ((x : PortfolioSnapshot F) → o ≡ some x → IsMap x.buckets)
      → IsMap (stored_regions o)
  IsMap-stored none h = tt
  IsMap-stored (some x) h = h x refl

  kept_region :
      (o : Option (PortfolioSnapshot F)) (x : PortfolioSnapshot F) (k : String)
      (r : RegionSnapshot F) (incoming : Regions F)
      → o ≡ some x
      → lookup k x.buckets ≡ some r
      → is_manual r.source ≡ true
      → first_of (manual_only (lookup k (stored_regions o))) (lookup k incoming) ≡ some r
  kept_region o x k r incoming e region manual = rw (e, region, manual) refl

  module _ (m : Mongo F) (date : Time) where
    -- The regions of every row have different keys, as in a Go map.
    abbrev pub HasMaps : Tables F m → Type 0
    HasMaps t =
        (key : SnapshotKey) (x : PortfolioSnapshot F)
        → m.snapshots.find key t.snapshots ≡ some x
        → IsMap x.buckets

    -- The rows of other days are as they were, and so are the regions that a user has overridden.
    pub record KeepsRows (s t : Tables F m) : Type 0 where
      pub maps : HasMaps t
      pub other_days :
          (key : SnapshotKey)
          → nat_beq key.1 (utc_date date) ≡ false
          → m.snapshots.find key t.snapshots ≡ m.snapshots.find key s.snapshots
      pub overridden :
          (key : SnapshotKey) (x : PortfolioSnapshot F) (k : String) (r : RegionSnapshot F)
          → m.snapshots.find key s.snapshots ≡ some x
          → lookup k x.buckets ≡ some r
          → is_manual r.source ≡ true
          → (y : PortfolioSnapshot F) × (m.snapshots.find key t.snapshots ≡ some y)
            × (lookup k y.buckets ≡ some r)

    abbrev Kept : Tables F m → Tables F m → Type 0
    Kept s t = HasMaps s → KeepsRows s t

    Kept-IsPreorder : IsPreorder Kept
    Kept-IsPreorder = record {
      reflexive = λ s h. record {
        maps = h;
        other_days = λ key e. refl;
        overridden = λ key x k r found region manual. (x, found, region);
      };
      transitive = λ r s t f g h.
          let a = f h in
          let b = g a.maps in
          record {
            maps = b.maps;
            other_days = λ key e. b.other_days key e ∙ a.other_days key e;
            overridden = λ key x k v found region manual.
                let (y, stored, same) = a.overridden key x k v found region manual in
                b.overridden key y k v stored same manual;
          };
    }

    -- What an upsert of the day's snapshot writes.
    put_snapshot-Kept :
        (now : Time) (snap : PortfolioSnapshot F) (t : Tables F m)
        → utc_date snap.date ≡ utc_date date
        → IsMap snap.buckets
        → Kept t (
            put_snapshot m snap.user_id snap.date
              (upserted now snap (find_snapshot m snap.user_id snap.date t))
              t)
    put_snapshot-Kept now snap t day map h =
        let key0 : SnapshotKey = (snap.user_id, utc_date snap.date) in
        let o = m.snapshots.find key0 t.snapshots in
        let new = upserted now snap o in
        let stored_map = IsMap-stored o (λ x found. h key0 x found) in
        record {
          maps = λ key x found. elim (Bool-cases (key0 == key)) [
            | inl same ↦
                let e : some new ≡ some x =
                  sym (m.snapshots.find-put key0 key new t.snapshots ∙ rw same refl) ∙ found in
                subst (λ b. IsMap (stored_regions b)) e (IsMap-upserted m now snap o map stored_map)
            | inr other ↦
                h key x
                  (sym (m.snapshots.find-put key0 key new t.snapshots ∙ rw other refl) ∙ found)
          ];
          other_days = λ (u, n) e. ground (arith, m.snapshots.find-put key0 (u, n) new t.snapshots);
          overridden = λ key x k r found region manual. elim (Bool-cases (key0 == key)) [
            | inl same ↦
                let at_key0 : o ≡ some x =
                  subst (λ j. m.snapshots.find j t.snapshots ≡ some x)
                    (sym ((==_iff key0 key).0 same)) found in
                (
                  new,
                  m.snapshots.find-put key0 key new t.snapshots ∙ rw same refl,
                  regions-upserted m now snap o k stored_map
                      ∙ kept_region o x k r snap.buckets at_key0 region manual,
                )
            | inr other ↦
                (x, m.snapshots.find-put key0 key new t.snapshots ∙ rw other found, region)
          ];
        }

    upsert-Kept :
        (now : Time) (snap : PortfolioSnapshot F)
        → utc_date snap.date ≡ utc_date date
        → IsMap snap.buckets
        → Steps Kept (upsert m now snap)
    upsert-Kept now snap day map = record {
      at = λ w. elim (upsert-cases m now snap w) [
        | inl same ↦ subst (Kept w.stored) (sym same) (Kept-IsPreorder.reflexive w.stored)
        | inr written ↦
            subst (Kept w.stored) (sym written) (put_snapshot-Kept now snap w.stored day map)
      ];
    }

  module _ (p : Platform F) (to_upper : String → String)
      (quote : ObjectId → Holding F → Option F) where
    abbrev KeptByRun : Time → PlatformTables F p → PlatformTables F p → Type 0
    KeptByRun date s t = Kept p.mongo date s.portfolios t.portfolios

    KeptByRun-IsPreorder : (date : Time) → IsPreorder (KeptByRun date)
    KeptByRun-IsPreorder date = record {
      reflexive = λ s. (Kept-IsPreorder p.mongo date).reflexive s.portfolios;
      transitive =
          λ r s t. (Kept-IsPreorder p.mongo date).transitive r.portfolios s.portfolios t.portfolios;
    }

    stored-Kept :
        (date now : Time) (uid : ObjectId) (lines : List (HoldingSnapshot F))
        → Steps
            (KeptByRun date)
            (within_portfolios p to_upper quote (upsert p.mongo now (snapshot_of uid date lines)))
    unfolding snapshot_of
    stored-Kept date now uid lines = record {
      at = λ w.
          (upsert-Kept p.mongo date now (snapshot_of uid date lines) (utc_date-utc_date date)
              (IsMap-buckets_from_lines lines)).at
            (record { stored = w.stored.portfolios; faults = w.faults });
    }

    -- A run of the snapshot job leaves every row of another day as it is, and in the rows of its day every
    -- region that the user has overridden, whichever users it covers, whatever the prices are and whichever
    -- calls of the database fail. The regions of each stored row have different keys.
    pub run-KeepsRows :
        (now : Time) (options : RunOptions) (w : World (PlatformTables F p))
        → HasMaps p.mongo (run_date p to_upper quote now options) w.stored.portfolios
        → KeepsRows p.mongo
            (run_date p to_upper quote now options)
            w.stored.portfolios
            (run p to_upper quote now options w).1.stored.portfolios
    run-KeepsRows now options w =
        let date = run_date p to_upper quote now options in
        run-at p to_upper quote now options (KeptByRun date) (KeptByRun-IsPreorder date)
          (λ uid lines wet. stored-Kept date now uid lines) w

    -- A dry run stores nothing, whichever users it covers and whichever calls of the database fail.
    pub run-dry_run :
        (now : Time) (options : RunOptions) (w : World (PlatformTables F p))
        → options.dry_run ≡ true
        → (run p to_upper quote now options w).1.stored ≡ w.stored
    run-dry_run now options w dry =
        run-at p to_upper quote now options (λ s t. t ≡ s)
          (record { reflexive = λ s. refl; transitive = λ r s t f g. g ∙ f })
          (λ uid lines wet. absurd (ground arith)) w
