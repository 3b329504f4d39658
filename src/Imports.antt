-- ===== src/Imports.antt =====
-- services/dividend_import.go and domain/dividend.go: which rows of an imported sheet are new.
pub mod Occurrences
pub mod Window
use portfolio_dashboard.Prelude.{
  ℕ, suc, ◌+◌, ◌-◌, ◌≡◌, ◌↔◌, Bool, true, false, ◌&&◌, List, [], ◌∷◌, ◌++◌, Option, none, some, Eq,
  ◌==◌, nat_eq, nat_beq, ltb, if◌then◌else◌, exists, arith,
}
use portfolio_dashboard.Prelude.Assoc.{Assoc, lookup, insert}
use portfolio_dashboard.Clock.{Time, day_length, day_number}
use portfolio_dashboard.Double.{Double, Int64, amount_cents}
use portfolio_dashboard.Domain.{ObjectId, Transaction, Holding}

-- The duplicate identity: the holding, the calendar day and the cents.
pub record DividendKey : Type 0 where
  pub holding_id : ObjectId
  pub day : ℕ
  pub cents : Int64

abbrev dividend_key_beq : DividendKey → DividendKey → Bool
dividend_key_beq a b =
    nat_beq a.holding_id b.holding_id && nat_beq a.day b.day && nat_beq a.cents b.cents

pub dividend_key_beq_iff : (a b : DividendKey) → (dividend_key_beq a b ≡ true) ↔ (a ≡ b)
dividend_key_beq_iff a b = ground arith

instance abbrev pub dividend_key_eq : Eq DividendKey
dividend_key_eq = record { same = dividend_key_beq; same_iff = dividend_key_beq_iff }

-- `remaining[k]`, 0 if it is missing
abbrev pub count_of {κ} : {K : Type κ} ⦃e : Eq K⦄ → K → Assoc K ℕ → ℕ
count_of k m = elim (lookup k m) [ none ↦ 0 | some n ↦ n ]

module _ {ℓ κ} {Row Stored : Type ℓ} {K : Type κ} ⦃e : Eq K⦄ (row_key : Row → K)
    (stored_key : Stored → K) where
  -- The first loop of `partitionByKey`.
  unfoldable pub tally : List Stored → Assoc K ℕ → Assoc K ℕ
  unfolding lookup insert
  tally [] m = m
  tally (s ∷ ss) m = tally ss (insert (stored_key s) (suc (count_of (stored_key s) m)) m)

  -- The second loop: the new rows and the duplicates, each in the order of the sheet.
  unfoldable pub absorb : List Row → Assoc K ℕ → List Row × List Row
  unfolding lookup insert
  absorb [] m = ([], [])
  absorb (row ∷ rows) m = elim (ltb 0 (count_of (row_key row) m)) [
    | true ↦
        let (fresh, duplicates) =
          absorb rows (insert (row_key row) (count_of (row_key row) m - 1) m) in
        (fresh, row ∷ duplicates)
    | false ↦ let (fresh, duplicates) = absorb rows m in (row ∷ fresh, duplicates)
  ]

  unfoldable pub partition_by_key : List Row → List Stored → List Row × List Row
  unfolding tally absorb
  partition_by_key rows existing = absorb rows (tally existing [])

-- A row of the sheet as it was sent.
pub record DividendImportRow (F : Type 0) : Type 0 where
  pub line : ℕ
  pub date : Time
  pub amount : F
  pub cumulative : Option F

-- A valid row with the holding that it was resolved to.
pub record ImportRow (F : Type 0) : Type 0 where
  pub sheet_row : DividendImportRow F
  pub day : Time
  pub holding : Holding F

-- The first day, the last day and the holdings that the lookup of stored dividends must cover.
pub record LookupWindow : Type 0 where
  pub from : Time
  pub to : Time
  pub holding_ids : List ObjectId

-- The loop of `window`; a holding that was seen is not listed again.
unfoldable pub widen : {F : Type 0} → List (ImportRow F) → LookupWindow → LookupWindow
widen [] w = w
widen (row ∷ rows) w =
    let ids = w.holding_ids in
    widen rows (record {
      from = if ltb row.day w.from then row.day else w.from;
      to = if ltb w.to row.day then row.day else w.to;
      holding_ids =
          if exists (λ id. nat_beq id row.holding.id) ids
          then ids
          else ids ++ (row.holding.id ∷ []);
    })

-- `window`, which is only called with a first row; the last instant of the last day closes it.
unfoldable pub window : {F : Type 0} → ImportRow F → List (ImportRow F) → LookupWindow
unfolding widen
window row rows =
    let w = widen (row ∷ rows) (record { from = row.day; to = row.day; holding_ids = [] }) in
    record w { to = w.to + day_length - 1 }

module _ {F : Type 0} ⦃d : Double F⦄ where
  -- `DividendKeyOf`
  unfoldable pub dividend_key_of : Transaction F → DividendKey
  dividend_key_of t = record {
    holding_id = t.holding_id;
    day = day_number t.date;
    cents = amount_cents t.amount;
  }

  -- `key`
  unfoldable pub import_key : ImportRow F → DividendKey
  import_key r = record {
    holding_id = r.holding.id;
    day = day_number r.day;
    cents = amount_cents r.sheet_row.amount;
  }

  -- `partition`
  unfoldable pub partition :
      List (ImportRow F) → List (Transaction F) → List (ImportRow F) × List (ImportRow F)
  unfolding partition_by_key import_key dividend_key_of
  partition rows existing = partition_by_key import_key dividend_key_of rows existing
