-- ===== src/Domain.antt =====
-- domain/transaction.go and domain/holding.go. Object ids are numbers.
use portfolio_dashboard.Prelude.{ℕ, Bool, true, false, Option, List, String}
use portfolio_dashboard.Clock.{Time}

abbrev pub ObjectId : Type 0
ObjectId = ℕ

pub data TxnType : Type 0 where
  opening buy sell dividend split bonus merger : TxnType
  -- any other text
  unknown : TxnType

unfoldable pub is_opening : TxnType → Bool
is_opening TxnType.opening = true
is_opening _ = false

unfoldable pub is_sell : TxnType → Bool
is_sell TxnType.sell = true
is_sell _ = false

unfoldable pub is_dividend : TxnType → Bool
is_dividend TxnType.dividend = true
is_dividend _ = false

pub record ImportMeta (F : Type 0) : Type 0 where
  pub batch_id : String
  pub line : ℕ
  pub sheet_name : String
  pub sheet_cumulative : Option F

pub record Transaction (F : Type 0) : Type 0 where
  pub id : ObjectId
  pub user_id : ObjectId
  pub holding_id : ObjectId
  pub type : TxnType
  pub date : Time
  pub quantity : F
  pub amount : F
  pub ratio : F
  pub realized_seed : F
  pub opening_date : Option Time
  pub currency : String
  pub import_meta : Option (ImportMeta F)
  pub notes : String
  pub created_at : Time
  pub updated_at : Time

pub record Holding (F : Type 0) : Type 0 where
  pub id : ObjectId
  pub user_id : ObjectId
  pub script : String
  pub symbol : String
  pub exchange : String
  pub type : String
  pub stocks_owned : F
  pub avg_cost_price : F
  pub realized_pnl : F
  pub total_dividends : F
  pub currency : String
  pub aliases : List String
  pub notes : String
  pub created_at : Time
  pub updated_at : Time
