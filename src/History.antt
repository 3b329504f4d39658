-- ===== src/History.antt =====
-- services/history.go: the history of daily snapshots, read and corrected by hand. `now` is the clock's
-- answer, and a date is the answer of `time.Parse`, `none` if it is malformed. The rows' overlays of gold
-- and dividends are not part of this service.
pub mod Anchors
pub mod Add
pub mod Safety
use portfolio_dashboard.Prelude.{
  ℕ, Bool, true, false, not, ◌&&◌, ◌||◌, Option, none, some, List, [], ◌∷◌, ◌++◌, map, String,
  if◌then◌else◌, ltb, exists, ◌==◌, string_eq,
}
use portfolio_dashboard.Prelude.Assoc.{lookup}
use portfolio_dashboard.Clock.{Time, utc_date, day_number}
use portfolio_dashboard.Errors.{Error, invalid_date, invalid_regions, not_found, Result, ok, err}
use portfolio_dashboard.Double.{Double, is_neg, round}
use portfolio_dashboard.Domain.{ObjectId}
use portfolio_dashboard.Snapshot.{
  SnapshotSource, currency_inr, currency_eur, currency_usd, RegionSnapshot, HoldingSnapshot,
  PortfolioSnapshot, SnapshotTotals, totals, zero_region, get_or,
}
use portfolio_dashboard.Mongo.{Mongo, Tables}
use portfolio_dashboard.Exec.{Exec, World, pure, raise, attempt, ◌>>=◌, ◌>>◌}
use portfolio_dashboard.SnapshotStore.{
  Regions, is_empty, upsert, get_snapshot, list_snapshots, latest_before, delete_snapshot,
  patch_regions as store_regions,
}

pub record HistoryHolding (F : Type 0) : Type 0 where
  pub symbol : String
  pub script : String
  pub currency : String
  pub quantity : F
  pub close_price : F
  pub price_date : Option ℕ
  pub current : F

pub record HistoryRow (F : Type 0) : Type 0 where
  pub date : ℕ
  pub regions : Regions F
  pub totals : SnapshotTotals F
  pub holdings : List (HistoryHolding F)

pub record HistoryList (F : Type 0) : Type 0 where
  pub currency : String
  pub rows : List (HistoryRow F)

pub record HistoryConflict (F : Type 0) : Type 0 where
  pub region : String
  pub existing : RegionSnapshot F
  pub incoming : RegionSnapshot F

-- What `Add` answers: the new row, or `*ErrConflict`.
pub data AddAnswer (F : Type 0) : Type 0 where
  added : HistoryRow F → AddAnswer F
  conflicting : List (HistoryConflict F) → AddAnswer F

pub record AddRowInput (F : Type 0) : Type 0 where
  pub date : Option Time
  pub regions : Regions F

pub record DateConflict (F : Type 0) : Type 0 where
  pub date : ℕ
  pub existing : Regions F
  pub incoming : Regions F

-- Why `Paste` refuses a row: the error's text, or that the date is outside the month.
pub data RejectReason : Type 0 where
  refused : Error → RejectReason
  outside_month : RejectReason

pub record RejectedPasteRow : Type 0 where
  pub date : Option Time
  pub reason : RejectReason

pub record PasteReport (F : Type 0) : Type 0 where
  pub applied : List ℕ
  pub conflicts : List (DateConflict F)
  pub rejected : List RejectedPasteRow

unfoldable pub parse_date_not_future : Time → Option Time → Result Time
parse_date_not_future now none = err invalid_date
parse_date_not_future now (some d) =
    if ltb (utc_date now) (utc_date d) then err invalid_date else ok (utc_date d)

-- `buildConflicts`
unfoldable pub build_conflicts : {F : Type 0} → Regions F → Regions F → List (HistoryConflict F)
build_conflicts [] existing = []
build_conflicts ((k, r) ∷ incoming) existing =
    let rest = build_conflicts incoming existing in
    elim (lookup k existing) [
      | none ↦ rest
      | some ex ↦ record { region = k; existing = ex; incoming = r } ∷ rest
    ]

-- A region that the user writes by hand.
abbrev pub by_hand : {F : Type 0} → String → RegionSnapshot F → RegionSnapshot F
by_hand k r = record r { source = SnapshotSource.manual; write_currency = k }

unfoldable pub manual_row : {F : Type 0} → Regions F → Regions F
manual_row [] = []
manual_row ((k, r) ∷ rs) = (k, by_hand k r) ∷ manual_row rs

-- `originalCronFor`
unfoldable pub original_cron_for : {F : Type 0} → RegionSnapshot F → Option F × Option F
original_cron_for r = elim r.source [
  | SnapshotSource.cron ↦ (some r.invested, some r.current)
  | SnapshotSource.manual ↦ (r.original_cron_invested, r.original_cron_current)
  | SnapshotSource.unset ↦ (none, none)
]

abbrev pub set_anchor : {F : Type 0} → Option F × Option F → RegionSnapshot F → RegionSnapshot F
set_anchor (inv, cur) r = record r { original_cron_invested = inv; original_cron_current = cur }

abbrev pub is_known : String → Bool
is_known k = k == currency_inr || k == currency_eur

module _ {F : Type 0} ⦃d : Double F⦄ where
  -- `validateRegions`
  unfoldable pub validate_regions : Regions F → Option Error
  validate_regions rs =
      if is_empty rs
        || exists (λ e. not (is_known e.0) || is_neg e.1.invested || is_neg e.1.current) rs
      then some invalid_regions
      else none

  -- `existing.Buckets[k]`, the zero value if it is missing
  abbrev pub bucket : String → Regions F → RegionSnapshot F
  bucket k m = get_or (lookup k m) zero_region

  -- The loop of `PatchRegions`.
  unfoldable pub override_regions : Regions F → Regions F → Regions F
  unfolding original_cron_for lookup
  override_regions existing [] = []
  override_regions existing ((k, r) ∷ rs) =
      (k, set_anchor (original_cron_for (bucket k existing)) (by_hand k r))
      ∷ override_regions existing rs

  -- The loop of `historyRowFromSnapshot`.
  unfoldable pub shown_regions : Regions F → Regions F
  shown_regions [] = []
  shown_regions ((k, r) ∷ m) =
      let rest = shown_regions m in
      if k == currency_usd
      then rest
      else (k, record r { invested = round r.invested; current = round r.current }) ∷ rest

  unfoldable pub holding_from_line : HoldingSnapshot F → HistoryHolding F
  holding_from_line ln = record {
    symbol = ln.symbol;
    script = ln.script;
    currency = ln.currency;
    quantity = ln.quantity;
    close_price = ln.close_price;
    price_date = ln.price_date;
    current = round ln.current;
  }

  -- `historyRowFromSnapshot` and `holdingsFromLines`
  unfoldable pub history_row_from_snapshot : PortfolioSnapshot F → HistoryRow F
  unfolding shown_regions holding_from_line
  history_row_from_snapshot snap =
      let sums = totals snap in
      record {
        date = day_number snap.date;
        regions = shown_regions snap.buckets;
        totals = record sums {
          invested_total = round sums.invested_total;
          current_total = round sums.current_total;
        };
        holdings = map holding_from_line (get_or snap.lines []);
      }

  -- The currency of the last row that has one.
  unfoldable pub list_currency : String → List (PortfolioSnapshot F) → String
  list_currency currency [] = currency
  list_currency currency (s ∷ ss) =
      list_currency (if s.currency == "" then currency else s.currency) ss

  -- The row that `Add` and `Paste` insert.
  unfoldable pub row_by_hand : ObjectId → Time → Regions F → PortfolioSnapshot F
  unfolding manual_row
  row_by_hand uid date rs = record {
    user_id = uid;
    date = date;
    currency = currency_inr;
    buckets = manual_row rs;
    lines = none;
    created_at = 0;
    updated_at = 0;
  }

  -- The answer of `Add` and `PatchRegions`, which rounds nothing and shows no lines.
  abbrev pub plain_row : PortfolioSnapshot F → HistoryRow F
  plain_row snap = record {
    date = day_number snap.date;
    regions = snap.buckets;
    totals = totals snap;
    holdings = [];
  }

module _ {F : Type 0} ⦃d : Double F⦄ (m : Mongo F) (now : Time) where
  -- `Add`
  unfoldable pub insert_row : ObjectId → Time → Regions F → Exec (Tables F m) (AddAnswer F)
  unfolding row_by_hand
  insert_row uid date rs =
      upsert m now (row_by_hand uid date rs)
      >> pure (AddAnswer.added (plain_row (row_by_hand uid date rs)))

  unfoldable pub add : ObjectId → AddRowInput F → Exec (Tables F m) (AddAnswer F)
  unfolding insert_row build_conflicts
  add uid input = elim (parse_date_not_future now input.date) [
    | err e ↦ raise e
    | ok date ↦ elim (validate_regions input.regions) [
      | some e ↦ raise e
      | none ↦ do
        existing ← attempt (get_snapshot m uid date)
        elim existing [
          | ok row ↦ pure (AddAnswer.conflicting (build_conflicts input.regions row.buckets))
          | err Error.not_found ↦ insert_row uid date input.regions
          | err e ↦ raise e
        ]
    ]
  ]

  -- `PatchRegions`, once the existing row is read.
  unfoldable pub patch_existing :
      ObjectId → Time → Regions F → PortfolioSnapshot F → Exec (Tables F m) (HistoryRow F)
  unfolding override_regions
  patch_existing uid date rs existing = do
    store_regions m now uid date (override_regions existing.buckets rs)
    updated ← get_snapshot m uid date
    pure (plain_row updated)

  unfoldable pub patch_row : ObjectId → Option Time → Regions F → Exec (Tables F m) (HistoryRow F)
  unfolding patch_existing
  patch_row uid text rs = elim (parse_date_not_future now text) [
    | err e ↦ raise e
    | ok date ↦ elim (validate_regions rs) [
      | some e ↦ raise e
      | none ↦ get_snapshot m uid date >>= patch_existing uid date rs
    ]
  ]

  -- `Delete`
  unfoldable pub delete_row : ObjectId → Option Time → Bool → Exec (Tables F m) (Unit {0})
  delete_row uid text force = elim (parse_date_not_future now text) [
    | err e ↦ raise e
    | ok date ↦ delete_snapshot m force uid date
  ]

  -- One row of `Paste`.
  unfoldable pub reject_row : AddRowInput F → RejectReason → PasteReport F → PasteReport F
  reject_row row reason report = record report {
    rejected = report.rejected ++ (record { date = row.date; reason = reason } ∷ []);
  }

  unfoldable pub paste_valid :
      ObjectId → Time → Regions F → PasteReport F → Exec (Tables F m) (PasteReport F)
  unfolding row_by_hand
  paste_valid uid date rs report = do
    existing ← attempt (get_snapshot m uid date)
    elim existing [
      | ok row ↦
          let conflict : DateConflict F = record {
            date = day_number date;
            existing = row.buckets;
            incoming = rs;
          } in
          pure (record report { conflicts = report.conflicts ++ (conflict ∷ []) })
      | err Error.not_found ↦
          upsert m now (row_by_hand uid date rs)
          >> pure (record report { applied = report.applied ++ (day_number date ∷ []) })
      | err e ↦ raise e
    ]

  unfoldable pub paste_row :
      ObjectId → Time → Time → AddRowInput F → PasteReport F → Exec (Tables F m) (PasteReport F)
  unfolding paste_valid reject_row
  paste_row uid month_start next_month row report = elim (parse_date_not_future now row.date) [
    | err e ↦ pure (reject_row row (RejectReason.refused e) report)
    | ok date ↦
        if ltb date month_start || not (ltb date next_month)
        then pure (reject_row row RejectReason.outside_month report)
        else elim (validate_regions row.regions) [
          | some e ↦ pure (reject_row row (RejectReason.refused e) report)
          | none ↦ paste_valid uid date row.regions report
        ]
  ]

  unfoldable pub paste_rows :
      ObjectId
      → Time
      → Time
      → List (AddRowInput F)
      → PasteReport F
      → Exec (Tables F m) (PasteReport F)
  unfolding paste_row
  paste_rows uid month_start next_month [] report = pure report
  paste_rows uid month_start next_month (row ∷ rows) report =
      paste_row uid month_start next_month row report >>= paste_rows uid month_start next_month rows

  -- `Paste`, with the month's first instant and the next month's, `none` if the month is malformed.
  unfoldable pub paste :
      ObjectId → Option (Time × Time) → List (AddRowInput F) → Exec (Tables F m) (PasteReport F)
  unfolding paste_rows
  paste uid none rows = raise invalid_date
  paste uid (some (month_start, next_month)) rows =
      paste_rows uid month_start next_month rows
        (record { applied = []; conflicts = []; rejected = [] })

  -- The answer of `List` for the rows that were read.
  abbrev pub history_list : List (PortfolioSnapshot F) → HistoryList F
  history_list snaps = record {
    currency = list_currency currency_inr snaps;
    rows = map history_row_from_snapshot snaps;
  }

  -- The row before the window, appended to the rows of the window if it is asked for and there.
  unfoldable pub with_previous :
      Bool
      → ObjectId
      → Time
      → List (PortfolioSnapshot F)
      → Exec (Tables F m) (List (PortfolioSnapshot F))
  with_previous false uid from snaps = pure snaps
  with_previous true uid from snaps = do
    previous ← latest_before m uid from
    elim previous [ none ↦ pure snaps | some row ↦ pure (snaps ++ (row ∷ [])) ]

  -- `List`
  unfoldable pub list : ObjectId → Time → Time → Bool → Exec (Tables F m) (HistoryList F)
  unfolding history_row_from_snapshot list_currency with_previous
  list uid from to include_previous = if ltb to from then raise invalid_date else do
    snaps ← list_snapshots m uid from to
    rows ← with_previous include_previous uid from snaps
    pure (history_list rows)
