-- ===== src/Examples/Sheets.antt =====
-- A sheet with a dividend three times, of which one is stored.
use portfolio_dashboard.Prelude.{ℕ, ◌*◌, ◌≡◌, refl, All, List, [], ◌∷◌, ◌++◌, map, none, nat_eq}
use portfolio_dashboard.Prelude.Assoc.{lookup, insert}
use portfolio_dashboard.Clock.{day_length}
use portfolio_dashboard.Domain.{Holding}
use portfolio_dashboard.Imports.{ImportRow, window, partition_by_key, tally, absorb}
use portfolio_dashboard.Imports.Occurrences.{
  by_count, partition_by_key-by_count, partition_by_key_again,
}
use portfolio_dashboard.Imports.Window.{IsLookedUp, window-All}
use portfolio_dashboard.Examples.Whole.{ℤ, pos, whole_double}

-- Rows and stored events as pairs of a line and a key.
abbrev key : ℕ × ℕ → ℕ
key (line, k) = k

abbrev sheet : List (ℕ × ℕ)
sheet = (1, 5) ∷ (2, 5) ∷ (3, 6) ∷ (4, 5) ∷ []

abbrev ledger : List (ℕ × ℕ)
ledger = (0, 5) ∷ []

new_rows : (partition_by_key key key sheet ledger).0 ≡ (2, 5) ∷ (3, 6) ∷ (4, 5) ∷ []
unfolding partition_by_key tally absorb lookup insert
new_rows = refl

partition_by_key-by_count_example :
    partition_by_key key key sheet ledger ≡ by_count key key [] sheet ledger
partition_by_key-by_count_example = partition_by_key-by_count key key sheet ledger

partition_by_key_again_example :
    (partition_by_key key key sheet
      (ledger ++ map (λ r. r) (partition_by_key key key sheet ledger).0)).0
    ≡ []
partition_by_key_again_example = partition_by_key_again key key (λ r. r) sheet ledger (λ r. refl)

abbrev holding : ℕ → Holding ℤ
holding id = record {
  id = id;
  user_id = 7;
  script = "TCS";
  symbol = "TCS.NS";
  exchange = "NSE";
  type = "stock";
  stocks_owned = pos 0;
  avg_cost_price = pos 0;
  realized_pnl = pos 0;
  total_dividends = pos 0;
  currency = "INR";
  aliases = [];
  notes = "";
  created_at = 1;
  updated_at = 1;
}

abbrev row : ℕ → ℕ → ImportRow ℤ
row day id = record {
  sheet_row = record { line = 1; date = day * day_length; amount = pos 3; cumulative = none };
  day = day * day_length;
  holding = holding id;
}

window-All_example :
    All
      (IsLookedUp (window (row 9 1) (row 4 2 ∷ row 12 1 ∷ [])))
      (row 9 1 ∷ row 4 2 ∷ row 12 1 ∷ [])
window-All_example = window-All (row 9 1) (row 4 2 ∷ row 12 1 ∷ [])
