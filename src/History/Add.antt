-- ===== src/History/Add.antt =====
-- What an `Add` writes.
use portfolio_dashboard.Prelude.{
  ◌≡◌, ◌≢◌, ◌≤◌, ◌⊎◌, inl, inr, refl, ap, ap₂, ◌==◌, ◌∙◌, Bool, false, not, ◌||◌, [], ◌∷◌, map,
  String, string_eq, none, some, arith, All, exists, ==_iff, Bool-cases,
}
use portfolio_dashboard.Clock.{Time, utc_date, utc_date-utc_date}
use portfolio_dashboard.Errors.{ok}
use portfolio_dashboard.Double.{Double, is_neg}
use portfolio_dashboard.Snapshot.{SnapshotSource, RegionSnapshot}
use portfolio_dashboard.Domain.{ObjectId}
use portfolio_dashboard.Mongo.{Mongo, Tables, snapshot_key_eq}
use portfolio_dashboard.Exec.{World}
use portfolio_dashboard.SnapshotStore.{
  Regions, find_snapshot, get_snapshot, upsert, upserted, new_snapshot,
}
use portfolio_dashboard.History.{
  AddAnswer, HistoryRow, parse_date_not_future, row_by_hand, insert_row, add, manual_row, by_hand,
  is_known, validate_regions, plain_row,
}

-- A currency that a request may name.
abbrev pub IsTracked : String → Type 0
IsTracked k = (k ≡ "INR") ⊎ (k ≡ "EUR")

module _ {F : Type 0} ⦃d : Double F⦄ where
  -- A request's region with a tracked currency and no negative number.
  abbrev pub IsValidRegion : String × RegionSnapshot F → Type 0
  IsValidRegion (k, r) = IsTracked k × (is_neg r.invested ≡ false) × (is_neg r.current ≡ false)

  -- The regions of a request, each marked as manual and as written in its own currency.
  abbrev pub marked : Regions F → Regions F
  marked rs =
      map (λ (k, r). (k, record r { source = SnapshotSource.manual; write_currency = k })) rs

  manual_row-eq-marked : (rs : Regions F) → manual_row rs ≡ marked rs
  unfolding manual_row
  manual_row-eq-marked [] = refl
  manual_row-eq-marked ((k, r) ∷ rs) = ap (λ m. (k, by_hand k r) ∷ m) (manual_row-eq-marked rs)

  abbrev is_bad : String × RegionSnapshot F → Bool
  is_bad e = not (is_known e.0) || is_neg e.1.invested || is_neg e.1.current

  is_bad-IsValidRegion : (e : String × RegionSnapshot F) → is_bad e ≡ false → IsValidRegion e
  is_bad-IsValidRegion (k, r) h = (
    elim (Bool-cases (k == "INR")) [
      | inl rupees ↦ inl ((==_iff k "INR").0 rupees)
      | inr other ↦ elim (Bool-cases (k == "EUR")) [
        | inl euros ↦ inr ((==_iff k "EUR").0 euros)
        | inr unknown ↦ absurd (ground arith)
      ]
    ],
    ground arith,
    ground arith,
  )

  exists-All : (rs : Regions F) → exists is_bad rs ≡ false → All IsValidRegion rs
  exists-All [] h = tt
  exists-All (e ∷ rs) h = (is_bad-IsValidRegion e (ground arith), exists-All rs (ground arith))

  validate_regions-All :
      (rs : Regions F) → validate_regions rs ≡ none → (rs ≢ []) × All IsValidRegion rs
  unfolding validate_regions
  validate_regions-All [] h = absurd (ground arith)
  validate_regions-All (e ∷ rs) h =
      (λ empty. absurd (ground arith), exists-All (e ∷ rs) (ground arith))

module _ {F : Type 0} ⦃d : Double F⦄ (m : Mongo F) (now : Time) where
  -- The request was in order, the day had no row, and it has the one of the request.
  abbrev pub IsAdded : ObjectId → Time → Regions F → Tables F m → Tables F m → HistoryRow F → Type 0
  IsAdded uid day rs s t row =
      (utc_date day ≤ utc_date now)
      × (rs ≢ [])
      × All IsValidRegion rs
      × (find_snapshot m uid day s ≡ none)
      × (find_snapshot m uid day t
          ≡ some (record {
            user_id = uid;
            date = utc_date day;
            currency = "INR";
            buckets = marked rs;
            lines = none;
            created_at = now;
            updated_at = now;
          }))
      × (row.regions ≡ marked rs)

  add-valid :
      (uid : ObjectId) (day : Time) (rs : Regions F) (w : World (Tables F m)) (row : HistoryRow F)
      → (add m now uid (record { date = some day; regions = rs }) w).0 ≡ ok (AddAnswer.added row)
      → (utc_date day ≤ utc_date now) × (validate_regions rs ≡ none)
  unfolding add parse_date_not_future
  add-valid uid day rs w row h = (ground arith, ground arith)

  add-stored :
      (uid : ObjectId) (day : Time) (rs : Regions F) (w : World (Tables F m)) (row : HistoryRow F)
      → (add m now uid (record { date = some day; regions = rs }) w).0 ≡ ok (AddAnswer.added row)
      → (find_snapshot m uid day w.stored ≡ none)
        × (find_snapshot m uid day
              (add m now uid (record { date = some day; regions = rs }) w).1.stored
            ≡ some (new_snapshot now (row_by_hand uid (utc_date day) rs)))
        × (row ≡ plain_row (row_by_hand uid (utc_date day) rs))
  unfolding add insert_row get_snapshot upsert row_by_hand parse_date_not_future upserted
  add-stored uid day rs w row h = ground (
    arith,
    utc_date-utc_date day,
    m.snapshots.find-put (uid, utc_date (utc_date day)) (uid, utc_date day)
        (new_snapshot now (row_by_hand uid (utc_date day) rs)) w.stored.snapshots,
  )

  -- An `Add` that answers with a row had a day that is not in the future, and regions, all of tracked
  -- currencies and with no negative number; it found no row for the day, and leaves there the regions of the
  -- request, each marked as manual and with its key as the currency of writing, as the answer shows them.
  pub add-added :
      (uid : ObjectId) (day : Time) (rs : Regions F) (w : World (Tables F m)) (row : HistoryRow F)
      → (add m now uid (record { date = some day; regions = rs }) w).0 ≡ ok (AddAnswer.added row)
      → IsAdded uid day rs w.stored
          (add m now uid (record { date = some day; regions = rs }) w).1.stored
          row
  unfolding row_by_hand new_snapshot
  add-added uid day rs w row h =
      let (past, accepted) = add-valid uid day rs w row h in
      let (given, valid) = validate_regions-All rs accepted in
      let (absent, written, answer) = add-stored uid day rs w row h in
      let mark = manual_row-eq-marked rs in
      (
        past,
        given,
        valid,
        absent,
        written
            ∙ ap₂
                (λ date regions. some (record {
                  user_id = uid;
                  date = date;
                  currency = "INR";
                  buckets = regions;
                  lines = none;
                  created_at = now;
                  updated_at = now;
                }))
                (utc_date-utc_date day) mark,
        ap (λ x. x.regions) answer ∙ mark,
      )
