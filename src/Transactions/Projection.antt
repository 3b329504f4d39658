-- ===== src/Transactions/Projection.antt =====
-- After a `Create` or a `Delete` that ends well the stored holding is the projection of its stored ledger.
use portfolio_dashboard.Prelude.{
  ◌≡◌, Bool, true, Option, none, some, List, [], ◌∷◌, String, if◌then◌else◌, arith, nat_beq,
  ==_refl, nat_eq, inl, inr, Option-cases, ◌∙◌, ap, sym, ◌&&◌,
}
use mathlib.Core.Path.{subst}
use portfolio_dashboard.Clock.{Time}
use portfolio_dashboard.Errors.{ok}
use portfolio_dashboard.Double.{Double}
use portfolio_dashboard.Domain.{ObjectId, Transaction, Holding}
use portfolio_dashboard.Ledger.{recompute_position}
use portfolio_dashboard.Mongo.{Mongo, Tables}
use portfolio_dashboard.Exec.{World, healthy}
use portfolio_dashboard.Heal.Scope.{recompute_from-Kept}
use portfolio_dashboard.Transactions.{
  TransactionInput, with_position, heal_after, healed_dates, earliest_from, settle_create, create,
  settle_delete, delete, new_transaction, validate_txn_input, put_transaction, delete_transaction,
  settle_update, owned_transaction, owned_holding, holding_ledger,
}
use portfolio_dashboard.Transactions.Rollback.{heal_after-ok, without_transaction}
use portfolio_dashboard.Transactions.Replayed.{recompute_and_persist-cases, put_holding}

module _ {F : Type 0} ⦃d : Double F⦄ (m : Mongo F) where
  -- A stored holding that has the position of its stored ledger, which is not oversold.
  pub record IsProjected (uid hid : ObjectId) (t : Tables F m) : Type 0 where
    pub holding : Holding F
    pub found : m.holdings.find hid t.holdings ≡ some holding
    pub stocks_owned :
        holding.stocks_owned ≡ (recompute_position (holding_ledger m uid hid t)).0.stocks_owned
    pub avg_cost_price :
        holding.avg_cost_price ≡ (recompute_position (holding_ledger m uid hid t)).0.avg_cost_price
    pub realized_pnl :
        holding.realized_pnl ≡ (recompute_position (holding_ledger m uid hid t)).0.realized_pnl
    pub total_dividends :
        holding.total_dividends
        ≡ (recompute_position (holding_ledger m uid hid t)).0.total_dividends
    pub not_oversold : (recompute_position (holding_ledger m uid hid t)).1 ≡ none

  -- A heal of the snapshots writes neither transactions nor holdings.
  heal_after-keeps :
      (b : Bool) (to_upper : String → String) (now : Time) (uid : ObjectId)
      (ts : List (Transaction F)) (w : World (Tables F m))
      → let after = (heal_after m b to_upper now uid ts w).1.stored in
        (after.transactions ≡ w.stored.transactions) × (after.holdings ≡ w.stored.holdings)
  unfolding heal_after
  heal_after-keeps b to_upper now uid ts w =
      let kept = recompute_from-Kept m to_upper now (earliest_from 0 (healed_dates ts)) uid w in
      (ground (arith, kept.transactions), ground (arith, kept.holdings))

  put-IsProjected :
      (now : Time) (uid hid : ObjectId) (t u : Tables F m) (h : Holding F)
      → (recompute_position (holding_ledger m uid hid t)).1 ≡ none
      → u.transactions ≡ t.transactions
      → u.holdings
        ≡ m.holdings.put hid
            (with_position now (recompute_position (holding_ledger m uid hid t)).0 h)
            t.holdings
      → IsProjected uid hid u
  unfolding with_position
  put-IsProjected now uid hid t u h fits same stored =
      let pos = (recompute_position (holding_ledger m uid hid t)).0 in
      let again =
        ap
          (λ s.
            recompute_position
              (m.transactions.query (λ x. nat_beq x.user_id uid && nat_beq x.holding_id hid) s))
          same in
      record {
        holding = with_position now pos h;
        found =
            ap (m.holdings.find hid) stored
            ∙ (m.holdings.find-put hid hid (with_position now pos h) t.holdings
                ∙ ap
                    (λ c.
                      if c then some (with_position now pos h) else m.holdings.find hid t.holdings)
                    (==_refl hid));
        stocks_owned = sym (ap (λ r. r.0.stocks_owned) again);
        avg_cost_price = sym (ap (λ r. r.0.avg_cost_price) again);
        realized_pnl = sym (ap (λ r. r.0.realized_pnl) again);
        total_dividends = sym (ap (λ r. r.0.total_dividends) again);
        not_oversold = ap (λ r. r.1) again ∙ fits;
      }

  healed-IsProjected :
      (b : Bool) (to_upper : String → String) (now : Time) (uid hid : ObjectId)
      (ts : List (Transaction F)) (t : Tables F m) (h : Holding F)
      → (recompute_position (holding_ledger m uid hid t)).1 ≡ none
      → IsProjected uid hid
          (heal_after m b to_upper now uid ts (
            healthy (
              put_holding m hid
                (with_position now (recompute_position (holding_ledger m uid hid t)).0 h)
                t))).1.stored
  healed-IsProjected b to_upper now uid hid ts t h fits =
      let pos = (recompute_position (holding_ledger m uid hid t)).0 in
      let w = healthy (put_holding m hid (with_position now pos h) t) in
      let (same, stored) = heal_after-keeps b to_upper now uid ts w in
      put-IsProjected now uid hid t (heal_after m b to_upper now uid ts w).1.stored h fits same
        stored

  module _ (b : Bool) (to_upper : String → String) (now today : Time) where
    settle_create-IsProjected :
        (x : Transaction F) (t : Tables F m) {r : Option (Transaction F)}
        → (settle_create m b to_upper now today x (healthy t)).0 ≡ ok r
        → IsProjected x.user_id x.holding_id
            (settle_create m b to_upper now today x (healthy t)).1.stored
    unfolding settle_create
    settle_create-IsProjected x t h =
        let uid = x.user_id in
        let hid = x.holding_id in
        elim (recompute_and_persist-cases m now uid hid t) [
          | inl (e, run) ↦ absurd (ground (arith, run))
          | inr (old, found, fits, run) ↦
              let pos = (recompute_position (holding_ledger m uid hid t)).0 in
              let w = healthy (put_holding m hid (with_position now pos old) t) in
              subst (IsProjected uid hid)
                (ground (arith, run, heal_after-ok m b to_upper now uid (x ∷ []) w))
                (healed-IsProjected b to_upper now uid hid (x ∷ []) t old fits)
        ]

    settle_delete-IsProjected :
        (x : Transaction F) (t : Tables F m) {r : Bool}
        → (settle_delete m b to_upper now today x (healthy t)).0 ≡ ok r
        → IsProjected x.user_id x.holding_id
            (settle_delete m b to_upper now today x (healthy t)).1.stored
    unfolding settle_delete
    settle_delete-IsProjected x t h =
        let uid = x.user_id in
        let hid = x.holding_id in
        elim (recompute_and_persist-cases m now uid hid t) [
          | inl (e, run) ↦ absurd (ground (arith, run))
          | inr (old, found, fits, run) ↦
              let pos = (recompute_position (holding_ledger m uid hid t)).0 in
              let w = healthy (put_holding m hid (with_position now pos old) t) in
              subst (IsProjected uid hid)
                (ground (arith, run, heal_after-ok m b to_upper now uid (x ∷ []) w))
                (healed-IsProjected b to_upper now uid hid (x ∷ []) t old fits)
        ]

    settle_update-IsProjected :
        (x y : Transaction F) (t : Tables F m) {r : Option (Transaction F)}
        → (settle_update m b to_upper now today x y (healthy t)).0 ≡ ok r
        → IsProjected x.user_id x.holding_id
            (settle_update m b to_upper now today x y (healthy t)).1.stored
    unfolding settle_update
    settle_update-IsProjected x y t h =
        let uid = x.user_id in
        let hid = x.holding_id in
        elim (recompute_and_persist-cases m now uid hid t) [
          | inl (e, run) ↦ absurd (ground (arith, run))
          | inr (old, found, fits, run) ↦
              let pos = (recompute_position (holding_ledger m uid hid t)).0 in
              let w = healthy (put_holding m hid (with_position now pos old) t) in
              subst (IsProjected uid hid)
                (ground (arith, run, heal_after-ok m b to_upper now uid (x ∷ y ∷ []) w))
                (healed-IsProjected b to_upper now uid hid (x ∷ y ∷ []) t old fits)
        ]

    -- After a `Create` that answers with an event, the holding is stored with the position, the profit and
    -- the dividends of the ledger that is stored, and that ledger is not oversold, if the database answers.
    pub create-IsProjected :
        (uid hid new_id : ObjectId) (input : TransactionInput F) (t : Tables F m)
        (x : Transaction F)
        → (create m b to_upper now today uid (some hid) new_id input (healthy t)).0 ≡ ok (some x)
        → IsProjected uid hid
            (create m b to_upper now today uid (some hid) new_id input (healthy t)).1.stored
    unfolding create
    create-IsProjected uid hid new_id input t x h =
        elim (Option-cases (owned_holding m uid hid t)) [
          | inl absent ↦ absurd (ground arith)
          | inr (owner, own) ↦ elim (Option-cases (validate_txn_input input today)) [
            | inr (e, bad) ↦ absurd (ground arith)
            | inl good ↦
                let y = new_transaction m b to_upper now today uid hid new_id input owner in
                let written = put_transaction m y t in
                subst (IsProjected uid hid) (ground arith)
                  (settle_create-IsProjected y written {r = some x} (ground arith))
          ]
        ]

    -- After a `Delete` that removed an event, the event's holding is stored with the position, the profit
    -- and the dividends of the ledger that is left, which is not oversold, if the database answers.
    pub delete-IsProjected :
        (uid id : ObjectId) (t : Tables F m) (prev : Transaction F)
        → owned_transaction m uid id t ≡ some prev
        → (delete m b to_upper now today uid (some id) (healthy t)).0 ≡ ok true
        → IsProjected uid prev.holding_id
            (delete m b to_upper now today uid (some id) (healthy t)).1.stored
    unfolding delete delete_transaction
    delete-IsProjected uid id t prev own h =
        let removed = without_transaction m id t in
        let mine : prev.user_id ≡ uid = ground arith in
        subst
          (λ u.
            IsProjected u prev.holding_id
              (delete m b to_upper now today uid (some id) (healthy t)).1.stored)
          mine
          (subst (IsProjected prev.user_id prev.holding_id) (ground arith)
            (settle_delete-IsProjected prev removed {r = true} (ground arith)))
