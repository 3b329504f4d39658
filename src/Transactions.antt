-- ===== src/Transactions.antt =====
-- services/transactions.go and services/position.go: the ledger's writes, each followed by the replay of its
-- holding. `now` is the clock's answer, `today` the Indian day, and `to_upper` is `strings.ToUpper`.
mod Input
pub mod Replayed
pub mod Rollback
pub mod Projection
unfoldable pub use Input.{
  validate_dividend, validate_txn_input, transaction_from_input, ledger_currency, patched,
  needs_opening_date,
}
pub use Input.{TransactionInput, max_dividend_amount}
use portfolio_dashboard.Prelude.{
  ℕ, ◌≡◌, Bool, true, false, not, ◌&&◌, ◌||◌, Option, none, some, List, [], ◌∷◌, String,
  if◌then◌else◌, ltb, nat_beq, keep, is_none,
}
use portfolio_dashboard.Clock.{Time, utc_date}
use portfolio_dashboard.Errors.{Error, not_found, Result, ok, err}
use portfolio_dashboard.Double.{Double}
use portfolio_dashboard.Domain.{ObjectId, Transaction, Holding, is_dividend}
use portfolio_dashboard.Ledger.{Position, recompute_position}
use portfolio_dashboard.Mongo.{Mongo, Tables}
use portfolio_dashboard.Exec.{Exec, World, pure, raise, call, gets, modify, attempt, ◌>>=◌, ◌>>◌}
use portfolio_dashboard.Heal.{recompute_from}

-- `healSnapshots`: the earliest of the dates, where Go's zero time counts as none yet.
unfoldable pub earliest_from : Time → List Time → Time
earliest_from earliest [] = earliest
earliest_from earliest (t ∷ ts) =
    earliest_from (if nat_beq earliest 0 || ltb t earliest then t else earliest) ts

-- The dates of `healAfter`: those of the events that are no dividends.
unfoldable pub healed_dates : {F : Type 0} → List (Transaction F) → List Time
healed_dates [] = []
healed_dates (t ∷ ts) =
    let rest = healed_dates ts in if is_dividend t.type then rest else t.date ∷ rest

-- `restore`: the fields that `Update` writes, put back.
unfoldable pub restored : {F : Type 0} → Transaction F → Transaction F → Transaction F
restored prev x = record x {
  type = prev.type;
  date = prev.date;
  quantity = prev.quantity;
  amount = prev.amount;
  ratio = prev.ratio;
  realized_seed = prev.realized_seed;
  notes = prev.notes;
  updated_at = prev.updated_at;
  opening_date = prev.opening_date;
}

module _ {F : Type 0} ⦃d : Double F⦄ where
  -- The `$set` of `recomputeAndPersist`.
  unfoldable pub with_position : Time → Position F → Holding F → Holding F
  with_position now pos h = record h {
    stocks_owned = pos.stocks_owned;
    avg_cost_price = pos.avg_cost_price;
    realized_pnl = pos.realized_pnl;
    total_dividends = pos.total_dividends;
    updated_at = now;
  }

module _ {F : Type 0} ⦃d : Double F⦄ (m : Mongo F) where
  -- Reads by id that see only the owner's documents (`scopedFilter`).
  abbrev pub owned_transaction : ObjectId → ObjectId → Tables F m → Option (Transaction F)
  owned_transaction uid id t = elim (m.transactions.find id t.transactions) [
    | none ↦ none
    | some x ↦ if nat_beq x.user_id uid then some x else none
  ]

  abbrev pub owned_holding : ObjectId → ObjectId → Tables F m → Option (Holding F)
  owned_holding uid id t = elim (m.holdings.find id t.holdings) [
    | none ↦ none
    | some h ↦ if nat_beq h.user_id uid then some h else none
  ]

  abbrev pub put_transaction : Transaction F → Tables F m → Tables F m
  put_transaction x t = record t { transactions = m.transactions.put x.id x t.transactions }

  -- `ListByHolding`
  abbrev pub holding_ledger : ObjectId → ObjectId → Tables F m → List (Transaction F)
  holding_ledger uid hid t =
      m.transactions.query (λ x. nat_beq x.user_id uid && nat_beq x.holding_id hid) t.transactions

  -- `UpdateScopedAndReturn` of the two stores, one call each
  unfoldable pub update_holding :
      ObjectId → ObjectId → (Holding F → Holding F) → Tables F m → Result (Holding F) × Tables F m
  update_holding uid hid f t = elim (owned_holding uid hid t) [
    | none ↦ (err not_found, t)
    | some h ↦ (ok (f h), record t { holdings = m.holdings.put hid (f h) t.holdings })
  ]

  unfoldable pub update_transaction :
      ObjectId
      → ObjectId
      → (Transaction F → Transaction F)
      → Tables F m
      → Result (Option (Transaction F)) × Tables F m
  update_transaction uid id f t = elim (owned_transaction uid id t) [
    | none ↦ (ok none, t)
    | some x ↦
        (ok (some (f x)), record t { transactions = m.transactions.put id (f x) t.transactions })
  ]

  -- `DeleteScoped`
  unfoldable pub delete_transaction : ObjectId → ObjectId → Tables F m → Result Bool × Tables F m
  delete_transaction uid id t = elim (owned_transaction uid id t) [
    | none ↦ (ok false, t)
    | some x ↦ (ok true, record t { transactions = m.transactions.remove id t.transactions })
  ]

  -- The rest of `recomputeAndPersist` once the ledger is read.
  unfoldable pub persist :
      Time → ObjectId → ObjectId → Position F × Option Error → Exec (Tables F m) (Holding F)
  unfolding with_position update_holding
  persist now uid hid (pos, none) = call (update_holding uid hid (with_position now pos))
  persist now uid hid (pos, some e) = raise e

  unfoldable pub recompute_and_persist : Time → ObjectId → ObjectId → Exec (Tables F m) (Holding F)
  unfolding persist
  recompute_and_persist now uid hid = do
    list ← gets (holding_ledger uid hid)
    persist now uid hid (recompute_position list)

  -- `healAfter` and `healSnapshots`: best effort, and nothing for today or later, or with no recomputer.
  unfoldable pub heal_after :
      Bool
      → (String → String)
      → Time
      → ObjectId
      → List (Transaction F)
      → Exec (Tables F m) (Unit {0})
  heal_after has_recomputer to_upper now uid events =
      let earliest = earliest_from 0 (healed_dates events) in
      if not has_recomputer || nat_beq earliest 0 || not (ltb (utc_date earliest) (utc_date now))
      then pure tt
      else attempt (recompute_from m to_upper now uid earliest) >> pure tt

  module _ (has_recomputer : Bool) (to_upper : String → String) (now today : Time) where
    -- What `Create` does after the insert.
    unfoldable pub settle_create : Transaction F → Exec (Tables F m) (Option (Transaction F))
    settle_create t = do
      settled ← attempt (recompute_and_persist now t.user_id t.holding_id)
      elim settled [
        | ok h ↦ heal_after has_recomputer to_upper now t.user_id (t ∷ []) >> pure (some t)
        | err e ↦ attempt (call (delete_transaction t.user_id t.id)) >> raise e
      ]

    -- The event that `Create` inserts.
    abbrev pub new_transaction :
        ObjectId → ObjectId → ObjectId → TransactionInput F → Holding F → Transaction F
    new_transaction uid hid new_id input h = record (transaction_from_input input) {
      id = new_id;
      user_id = uid;
      holding_id = hid;
      currency = ledger_currency to_upper h;
      created_at = now;
      updated_at = now;
    }

    -- `Create`, where an unreadable holding id is `none`, and the answer `none` is a 404.
    unfoldable pub create :
        ObjectId
        → Option ObjectId
        → ObjectId
        → TransactionInput F
        → Exec (Tables F m) (Option (Transaction F))
    create uid none new_id input = pure none
    create uid (some hid) new_id input = do
      owned ← gets (owned_holding uid hid)
      elim owned [
        | none ↦ pure none
        | some h ↦ elim (validate_txn_input input today) [
          | some e ↦ raise e
          | none ↦
              let t = new_transaction uid hid new_id input h in
              modify (put_transaction t) >> settle_create t
        ]
      ]

    unfoldable pub restore : Transaction F → Exec (Tables F m) (Unit {0})
    unfolding restored
    restore prev = do
      put_back ← attempt (call (update_transaction prev.user_id prev.id (restored prev)))
      elim put_back [
        | ok (some x) ↦ attempt (recompute_and_persist now prev.user_id prev.holding_id) >> pure tt
        | _ ↦ pure tt
      ]

    -- What `Update` does after the write.
    unfoldable pub settle_update :
        Transaction F → Transaction F → Exec (Tables F m) (Option (Transaction F))
    unfolding restore
    settle_update prev updated = do
      settled ← attempt (recompute_and_persist now prev.user_id prev.holding_id)
      elim settled [
        | ok h ↦
            heal_after has_recomputer to_upper now prev.user_id (prev ∷ updated ∷ [])
            >> pure (some updated)
        | err e ↦ restore prev >> raise e
      ]

    -- `Update`
    unfoldable pub update :
        ObjectId → Option ObjectId → TransactionInput F → Exec (Tables F m) (Option (Transaction F))
    unfolding update_transaction
    update uid none input = pure none
    update uid (some id) input = do
      owned ← gets (owned_transaction uid id)
      elim owned [
        | none ↦ pure none
        | some prev ↦ elim (validate_txn_input input today) [
          | some e ↦ raise e
          | none ↦ do
            written ←
                call (update_transaction uid id (patched now (transaction_from_input input) prev))
            elim written [ none ↦ pure none | some updated ↦ settle_update prev updated ]
        ]
      ]

    -- What `Delete` does after the removal: a rejected one is inserted again.
    unfoldable pub settle_delete : Transaction F → Exec (Tables F m) Bool
    settle_delete prev = do
      settled ← attempt (recompute_and_persist now prev.user_id prev.holding_id)
      elim settled [
        | ok h ↦ heal_after has_recomputer to_upper now prev.user_id (prev ∷ []) >> pure true
        | err e ↦ do
          inserted ← attempt (modify (put_transaction prev))
          elim inserted [
            | err e' ↦ raise e
            | ok u ↦ attempt (recompute_and_persist now prev.user_id prev.holding_id) >> raise e
          ]
      ]

    -- `Delete`
    unfoldable pub delete : ObjectId → Option ObjectId → Exec (Tables F m) Bool
    unfolding delete_transaction
    delete uid none = pure false
    delete uid (some id) = do
      owned ← gets (owned_transaction uid id)
      elim owned [
        | none ↦ pure false
        | some prev ↦ do
          deleted ← call (delete_transaction uid id)
          if deleted then settle_delete prev else pure false
      ]
