-- ===== src/Transactions/Input.antt =====
-- `validateTxnInput`, `validateDividend`, `TransactionFromInput` (services/mapper.go) and the patch of `Update`.
use portfolio_dashboard.Prelude.{
  Bool, false, not, ◌&&◌, ◌||◌, Option, none, some, String, if◌then◌else◌, ltb, nat_beq, string_eq,
}
use portfolio_dashboard.Clock.{Time, utc_date}
use portfolio_dashboard.Errors.{Error, validation}
use portfolio_dashboard.Double.{
  Double, nought, is_neg, le, is_positive64, amount_cents, round_cents,
}
use portfolio_dashboard.Domain.{TxnType, Transaction, Holding, is_opening, is_dividend}
use portfolio_dashboard.Snapshot.{get_or}
use portfolio_dashboard.Heal.{currency_of}

-- `api.TransactionInput`: a request's fields, with `none` for an absent one.
pub record TransactionInput (F : Type 0) : Type 0 where
  pub type : TxnType
  pub date : Time
  pub quantity : Option F
  pub amount : Option F
  pub ratio : Option F
  pub realized_seed : Option F
  pub notes : Option String

abbrev refuse_unless : Bool → Option Error
refuse_unless b = if b then none else some validation

-- `ledgerCurrency`
unfoldable pub ledger_currency : {F : Type 0} → (String → String) → Holding F → String
ledger_currency to_upper h = get_or (currency_of to_upper h) (to_upper h.currency)

module _ {F : Type 0} ⦃d : Double F⦄ where
  open d use {literal, is_nan, is_inf}

  abbrev pub max_dividend_amount : F
  max_dividend_amount = literal 1_000_000_000_000 0

  unfoldable pub validate_dividend : Time → F → Time → Option Error
  validate_dividend date amount today =
      if is_nan amount
        || is_inf amount
        || not (is_positive64 (amount_cents amount))
        || le max_dividend_amount amount
      then some validation
      else if ltb today (utc_date date)
      then some validation
      else none

  -- Whether an optional field is there and not `<= 0`.
  abbrev given_pos : Option F → Bool
  given_pos none = false
  given_pos (some a) = not (le a nought)

  abbrev given_nonneg : Option F → Bool
  given_nonneg none = false
  given_nonneg (some a) = not (is_neg a)

  unfoldable pub validate_type : TxnType → TransactionInput F → Time → Option Error
  unfolding validate_dividend
  validate_type TxnType.opening input today = elim input.quantity [
    | none ↦ none
    | some q ↦ refuse_unless (not (is_neg q))
  ]
  validate_type TxnType.dividend input today = elim input.amount [
    | none ↦ some validation
    | some amount ↦ validate_dividend input.date amount today
  ]
  validate_type TxnType.split input today = refuse_unless (given_pos input.ratio)
  validate_type TxnType.bonus input today = refuse_unless (given_pos input.ratio)
  validate_type TxnType.merger input today = none
  validate_type TxnType.unknown input today = some validation
  validate_type _ input today =
      refuse_unless (given_pos input.quantity && given_nonneg input.amount)

  unfoldable pub validate_txn_input : TransactionInput F → Time → Option Error
  unfolding validate_type
  validate_txn_input input today = validate_type input.type input today

  abbrev stored_amount : TxnType → Option F → F
  stored_amount k none = nought
  stored_amount k (some a) = if is_dividend k then round_cents a else a

  unfoldable pub transaction_from_input : TransactionInput F → Transaction F
  transaction_from_input input = record {
    id = 0;
    user_id = 0;
    holding_id = 0;
    type = input.type;
    date = input.date;
    quantity = get_or input.quantity nought;
    amount = stored_amount input.type input.amount;
    ratio = get_or input.ratio nought;
    realized_seed = get_or input.realized_seed nought;
    opening_date = none;
    currency = "";
    import_meta = none;
    notes = get_or input.notes "";
    created_at = 0;
    updated_at = 0;
  }

  -- Whether an edited opening moves to another day.
  unfoldable pub needs_opening_date : Transaction F → Transaction F → Bool
  needs_opening_date patch prev =
      is_opening patch.type && not (nat_beq (utc_date patch.date) (utc_date prev.date))

  -- The `$set` of `Update`, decided by the event that was read before and applied to the stored one.
  unfoldable pub patched : Time → Transaction F → Transaction F → Transaction F → Transaction F
  unfolding needs_opening_date
  patched now patch prev x = record x {
    type = patch.type;
    date = patch.date;
    quantity = patch.quantity;
    amount = patch.amount;
    ratio = patch.ratio;
    realized_seed = patch.realized_seed;
    notes = patch.notes;
    updated_at = now;
    opening_date = if needs_opening_date patch prev then some patch.date else x.opening_date;
  }
