-- ===== src/Examples/Services.antt =====
-- Writes to a ledger: accepted ones, and ones that would oversell it.
use portfolio_dashboard.Prelude.{◌≡◌, ◌*◌, refl, false, none, some, [], ◌∷◌, arith, String, nat_eq}
use portfolio_dashboard.Prelude.Assoc.{lookup, insert}
use portfolio_dashboard.Prelude.Sort.{sort}
use portfolio_dashboard.Clock.{day_length, utc_date}
use portfolio_dashboard.Errors.{oversell}
use portfolio_dashboard.Domain.{TxnType, Holding, is_sell, is_dividend}
use portfolio_dashboard.Ledger.{
  replay_order, replays_before, replay, apply_event, apply_type, recompute_position,
}
use portfolio_dashboard.Mongo.{Tables}
use portfolio_dashboard.Exec.{healthy}
use portfolio_dashboard.Heal.{currency_of}
use portfolio_dashboard.Transactions.{
  TransactionInput, validate_txn_input, transaction_from_input, ledger_currency, create,
  new_transaction, settle_create, update, settle_update, delete, settle_delete, patched,
  recompute_and_persist, heal_after, healed_dates, earliest_from,
}
use portfolio_dashboard.Transactions.Rollback.{
  IsKeyed, create_rollback, update_rollback, delete_rollback,
}
use portfolio_dashboard.Transactions.Projection.{
  IsProjected, create-IsProjected, delete-IsProjected,
}
use portfolio_dashboard.Examples.Whole.{ℤ, pos, whole_double}
use portfolio_dashboard.Examples.Memory.{in_memory, no_tables}
use portfolio_dashboard.Examples.Ledgers.{bought, sold}

abbrev pub tcs : Holding ℤ
tcs = record {
  id = 1;
  user_id = 7;
  script = "TCS";
  symbol = "TCS.NS";
  exchange = "NSE";
  type = "stock";
  stocks_owned = pos 6;
  avg_cost_price = pos 100;
  realized_pnl = pos 200;
  total_dividends = pos 0;
  currency = "INR";
  aliases = [];
  notes = "";
  created_at = 1;
  updated_at = 1;
}

-- Ten shares bought and four of them sold.
abbrev ledger : Tables ℤ (in_memory ℤ)
ledger = record (no_tables ℤ) {
  holdings = (1, tcs) ∷ [];
  transactions = (1, bought) ∷ (2, sold) ∷ [];
}

ledger-IsKeyed : IsKeyed (in_memory ℤ) ledger
unfolding lookup
ledger-IsKeyed j x h = ground arith

abbrev sell_of : ℤ → TransactionInput ℤ
sell_of quantity = record {
  type = TxnType.sell;
  date = 30 * day_length;
  quantity = some quantity;
  amount = some (pos 90);
  ratio = none;
  realized_seed = none;
  notes = none;
}

abbrev no_upper : String → String
no_upper s = s

create_rollback_example :
    lookup 9
      (create
        (in_memory ℤ)
        false
        no_upper
        (40 * day_length)
        (40 * day_length)
        7
        (some 1)
        9
        (sell_of (pos 7))
        (healthy ledger)).1.stored.transactions
    ≡ lookup 9 ledger.transactions
unfolding create settle_create recompute_and_persist recompute_position replay_order sort
    replays_before replay apply_event apply_type is_sell utc_date validate_txn_input
    transaction_from_input ledger_currency currency_of lookup insert is_dividend
create_rollback_example =
    create_rollback (in_memory ℤ) false no_upper (40 * day_length) (40 * day_length) 7 (some 1) 9
      (sell_of (pos 7)) ledger oversell refl refl 9

create-IsProjected_example :
    IsProjected
      (in_memory ℤ)
      7
      1
      (create
        (in_memory ℤ)
        false
        no_upper
        (40 * day_length)
        (40 * day_length)
        7
        (some 1)
        9
        (sell_of (pos 6))
        (healthy ledger)).1.stored
unfolding create settle_create recompute_and_persist recompute_position replay_order sort
    replays_before replay apply_event apply_type is_sell utc_date validate_txn_input
    transaction_from_input ledger_currency currency_of lookup insert is_dividend heal_after
    healed_dates earliest_from
create-IsProjected_example =
    create-IsProjected (in_memory ℤ) false no_upper (40 * day_length) (40 * day_length) 7 1 9
      (sell_of (pos 6)) ledger
      (new_transaction (in_memory ℤ) false no_upper (40 * day_length) (40 * day_length) 7 1 9
        (sell_of (pos 6)) tcs)
      refl

-- Without the purchase the sell is not covered.
delete_rollback_example :
    lookup 1
      (delete
        (in_memory ℤ)
        false
        no_upper
        (40 * day_length)
        (40 * day_length)
        7
        (some 1)
        (healthy ledger)).1.stored.transactions
    ≡ lookup 1 ledger.transactions
unfolding delete settle_delete recompute_and_persist recompute_position replay_order sort
    replays_before replay apply_event apply_type is_sell utc_date lookup insert
delete_rollback_example =
    delete_rollback (in_memory ℤ) false no_upper (40 * day_length) (40 * day_length) 7 (some 1)
      ledger oversell ledger-IsKeyed refl 1

-- The sale goes, and the ten shares are back.
delete-IsProjected_example :
    IsProjected
      (in_memory ℤ)
      7
      1
      (delete
        (in_memory ℤ)
        false
        no_upper
        (40 * day_length)
        (40 * day_length)
        7
        (some 2)
        (healthy ledger)).1.stored
unfolding delete settle_delete recompute_and_persist recompute_position replay_order sort
    replays_before replay apply_event apply_type is_sell utc_date lookup insert heal_after
    healed_dates earliest_from is_dividend
delete-IsProjected_example =
    delete-IsProjected (in_memory ℤ) false no_upper (40 * day_length) (40 * day_length) 7 2 ledger
      sold refl refl

-- The sale of four becomes one of eleven.
update_rollback_example :
    lookup 2
      (update
        (in_memory ℤ)
        false
        no_upper
        (40 * day_length)
        (40 * day_length)
        7
        (some 2)
        (sell_of (pos 11))
        (healthy ledger)).1.stored.transactions
    ≡ lookup 2 ledger.transactions
unfolding update settle_update recompute_and_persist recompute_position replay_order sort
    replays_before replay apply_event apply_type is_sell utc_date validate_txn_input
    transaction_from_input patched lookup insert is_dividend
update_rollback_example =
    update_rollback (in_memory ℤ) false no_upper (40 * day_length) (40 * day_length) 7 (some 2)
      (sell_of (pos 11)) ledger oversell ledger-IsKeyed refl 2
