-- ===== src/Snapshot.antt =====
-- domain/snapshot.go: daily snapshots of a portfolio.
pub mod Buckets
use portfolio_dashboard.Prelude.{
  ℕ, ◌≡◌, Bool, true, false, Option, none, some, List, [], ◌∷◌, map, String, if◌then◌else◌, ◌==◌,
  string_eq,
}
use portfolio_dashboard.Prelude.Assoc.{Assoc, lookup, insert}
use portfolio_dashboard.Double.{Double, nought, is_pos, is_neg}
use portfolio_dashboard.Clock.{Time}
use portfolio_dashboard.Domain.{ObjectId}

-- `unset` is any text that is neither "cron" nor "manual", such as the empty one of a missing region.
pub data SnapshotSource : Type 0 where
  cron manual unset : SnapshotSource

unfoldable pub is_valid_source : SnapshotSource → Bool
is_valid_source SnapshotSource.unset = false
is_valid_source _ = true

unfoldable pub is_manual : SnapshotSource → Bool
is_manual SnapshotSource.manual = true
is_manual _ = false

unfoldable pub is_cron : SnapshotSource → Bool
is_cron SnapshotSource.cron = true
is_cron _ = false

abbrev pub currency_inr : String
currency_inr = "INR"

abbrev pub currency_eur : String
currency_eur = "EUR"

abbrev pub currency_usd : String
currency_usd = "USD"

abbrev pub all_currencies : List String
all_currencies = currency_inr ∷ currency_eur ∷ []

pub record RegionSnapshot (F : Type 0) : Type 0 where
  pub invested : F
  pub current : F
  pub source : SnapshotSource
  pub original_cron_invested : Option F
  pub original_cron_current : Option F
  pub write_currency : String

-- `price_date` is a day number, and `none` for the empty text.
pub record HoldingSnapshot (F : Type 0) : Type 0 where
  pub symbol : String
  pub script : String
  pub currency : String
  pub quantity : F
  pub avg_cost : F
  pub close_price : F
  pub price_date : Option ℕ
  pub invested : F
  pub current : F

-- `lines` is `none` where the slice is nil.
pub record PortfolioSnapshot (F : Type 0) : Type 0 where
  pub user_id : ObjectId
  pub date : Time
  pub currency : String
  pub buckets : Assoc String (RegionSnapshot F)
  pub lines : Option (List (HoldingSnapshot F))
  pub created_at : Time
  pub updated_at : Time

pub record SnapshotTotals (F : Type 0) : Type 0 where
  pub invested_total : F
  pub current_total : F
  pub pnl_pct : Option F

abbrev pub get_or {ℓ} : {A : Type ℓ} → Option A → A → A
get_or none a = a
get_or (some b) a = b

module _ {F : Type 0} ⦃d : Double F⦄ where
  open d use {literal, add, sub, mul, div, neg, to_int64, of_int64}

  unfoldable pub sign : F → F
  sign x = if is_neg x then neg (literal 1 0) else literal 1 0

  unfoldable pub round2 : F → F
  unfolding sign
  round2 v =
      div (of_int64 (to_int64 (add (mul v (literal 100 0)) (mul (sign v) (literal 5 1)))))
        (literal 100 0)

  -- The zero value of the struct, which a missing map key gives.
  abbrev pub zero_region : RegionSnapshot F
  zero_region = record {
    invested = nought;
    current = nought;
    source = SnapshotSource.unset;
    original_cron_invested = none;
    original_cron_current = none;
    write_currency = "";
  }

  abbrev pub zero_cron : RegionSnapshot F
  zero_cron = record zero_region { source = SnapshotSource.cron }

  -- The first loop of `BucketsFromLines`.
  unfoldable pub zero_buckets : List String → Assoc String (RegionSnapshot F)
  unfolding insert
  zero_buckets [] = []
  zero_buckets (c ∷ cs) = insert c zero_cron (zero_buckets cs)

  unfoldable pub add_to_region : HoldingSnapshot F → RegionSnapshot F → RegionSnapshot F
  add_to_region ln rs = record rs {
    source = SnapshotSource.cron;
    invested = add rs.invested ln.invested;
    current = add rs.current ln.current;
  }

  -- The second loop: each line is added to its currency's bucket.
  unfoldable pub add_lines :
      List (HoldingSnapshot F) → Assoc String (RegionSnapshot F) → Assoc String (RegionSnapshot F)
  unfolding lookup insert add_to_region
  add_lines [] m = m
  add_lines (ln ∷ lns) m =
      add_lines lns
        (insert ln.currency (add_to_region ln (get_or (lookup ln.currency m) zero_region)) m)

  unfoldable pub round_region : RegionSnapshot F → RegionSnapshot F
  unfolding round2
  round_region rs = record rs { invested = round2 rs.invested; current = round2 rs.current }

  -- The last loop.
  unfoldable pub round_buckets : Assoc String (RegionSnapshot F) → Assoc String (RegionSnapshot F)
  unfolding round_region
  round_buckets [] = []
  round_buckets ((c, rs) ∷ m) = (c, round_region rs) ∷ round_buckets m

  unfoldable pub buckets_from_lines : List (HoldingSnapshot F) → Assoc String (RegionSnapshot F)
  unfolding zero_buckets add_lines round_buckets
  buckets_from_lines lns = round_buckets (add_lines lns (zero_buckets all_currencies))

  unfoldable pub sum_buckets : Assoc String (RegionSnapshot F) → F × F → F × F
  sum_buckets [] totals = totals
  sum_buckets ((c, r) ∷ m) (invested, current) =
      sum_buckets m (add invested r.invested, add current r.current)

  -- `Totals`, with the map in the order of the list.
  unfoldable pub totals : PortfolioSnapshot F → SnapshotTotals F
  unfolding sum_buckets sign
  totals p =
      let (invested, current) = sum_buckets p.buckets (nought, nought) in
      let pct = mul (div (sub current invested) invested) (literal 100 0) in
      let rounded =
        div (of_int64 (to_int64 (add (mul pct (literal 100 0)) (mul (sign pct) (literal 5 1)))))
          (literal 100 0) in
      record {
        invested_total = invested;
        current_total = current;
        pnl_pct = if is_pos invested then some rounded else none;
      }
