-- ===== src/Transactions/Rollback.antt =====
-- A rejected write leaves the ledger as it was, if the database answers.
use portfolio_dashboard.Prelude.{
  ◌≡◌, Bool, Option, none, some, List, [], ◌∷◌, String, arith, refl, nat_eq, inl, inr, Option-cases,
  ◌∙◌, ap,
}
use portfolio_dashboard.Clock.{Time}
use portfolio_dashboard.Errors.{Error, ok, err}
use portfolio_dashboard.Double.{Double}
use portfolio_dashboard.Domain.{ObjectId, Transaction}
use portfolio_dashboard.Mongo.{Mongo, Tables}
use portfolio_dashboard.Exec.{World, healthy}
use portfolio_dashboard.Transactions.{
  TransactionInput, transaction_from_input, recompute_and_persist, heal_after, settle_create,
  new_transaction, create, settle_delete, delete, settle_update, update, restore, restored, patched,
  update_transaction, delete_transaction, put_transaction, owned_transaction, owned_holding,
}
use portfolio_dashboard.Transactions.Replayed.{recompute_and_persist-cases}

module _ {F : Type 0} ⦃d : Double F⦄ (m : Mongo F) where
  pub heal_after-ok :
      (b : Bool) (to_upper : String → String) (now : Time) (uid : ObjectId)
      (ts : List (Transaction F)) (w : World (Tables F m))
      → (heal_after m b to_upper now uid ts w).0 ≡ ok tt
  unfolding heal_after
  heal_after-ok b to_upper now uid ts w = ground arith

  -- The same documents by id, as a reader of the collection finds them.
  abbrev pub SameLedger : Tables F m → Tables F m → Type 0
  SameLedger s t =
      (j : ObjectId) → m.transactions.find j t.transactions ≡ m.transactions.find j s.transactions

  abbrev pub without_transaction : ObjectId → Tables F m → Tables F m
  without_transaction id t = record t { transactions = m.transactions.remove id t.transactions }

  -- Every transaction is stored under its own id.
  abbrev pub IsKeyed : Tables F m → Type 0
  IsKeyed t =
      (j : ObjectId) (x : Transaction F) → m.transactions.find j t.transactions ≡ some x → x.id ≡ j

  module _ (b : Bool) (to_upper : String → String) (now today : Time) where
    settle_create-err :
        (x : Transaction F) (t : Tables F m) (e : Error)
        → owned_transaction m x.user_id x.id t ≡ some x
        → (settle_create m b to_upper now today x (healthy t)).0 ≡ err e
        → (settle_create m b to_upper now today x (healthy t)).1
          ≡ healthy (without_transaction x.id t)
    unfolding settle_create delete_transaction
    settle_create-err x t e own h =
        elim (recompute_and_persist-cases m now x.user_id x.holding_id t) [
          | inl (e', run) ↦ ground (arith, run)
          | inr (h', found, fits, run) ↦ ground (
            arith,
            run,
            heal_after-ok b to_upper now x.user_id (x ∷ [])
                (recompute_and_persist m now x.user_id x.holding_id (healthy t)).1,
          )
        ]

    find-put_remove :
        (x : Transaction F) (t : Tables F m) (j : ObjectId)
        → m.transactions.find x.id t.transactions ≡ none
        → m.transactions.find j
            (m.transactions.remove x.id (m.transactions.put x.id x t.transactions))
          ≡ m.transactions.find j t.transactions
    find-put_remove x t j fresh = ground (
      arith,
      m.transactions.find-remove x.id j (m.transactions.put x.id x t.transactions),
      m.transactions.find-put x.id j x t.transactions,
    )

    owned-put :
        (x : Transaction F) (t : Tables F m)
        → owned_transaction m x.user_id x.id (put_transaction m x t) ≡ some x
    owned-put x t = ground (arith, m.transactions.find-put x.id x.id x t.transactions)

    settle_create_rollback :
        (x : Transaction F) (t : Tables F m) (e : Error) (j : ObjectId)
        → m.transactions.find x.id t.transactions ≡ none
        → (settle_create m b to_upper now today x (healthy (put_transaction m x t))).0 ≡ err e
        → m.transactions.find j
            (settle_create m b to_upper now today x
              (healthy (put_transaction m x t))).1.stored.transactions
          ≡ m.transactions.find j t.transactions
    settle_create_rollback x t e j fresh h =
        ap (λ (w : World (Tables F m)). m.transactions.find j w.stored.transactions)
          (settle_create-err x (put_transaction m x t) e (owned-put x t) h)
        ∙ find-put_remove x t j fresh

    -- A `Create` under an unused id that ends in an error, of the validation or of the replay (an
    -- oversold ledger), leaves every transaction as it was, if the database answers.
    pub create_rollback :
        (uid : ObjectId) (hid : Option ObjectId) (new_id : ObjectId) (input : TransactionInput F)
        (t : Tables F m) (e : Error)
        → m.transactions.find new_id t.transactions ≡ none
        → (create m b to_upper now today uid hid new_id input (healthy t)).0 ≡ err e
        → SameLedger t (create m b to_upper now today uid hid new_id input (healthy t)).1.stored
    unfolding create
    create_rollback uid none new_id input t e fresh h j = refl
    create_rollback uid (some hid) new_id input t e fresh h j =
        elim (Option-cases (owned_holding m uid hid t)) [
          | inl absent ↦ ground arith
          | inr (x, found) ↦ ground (
            arith,
            settle_create_rollback (new_transaction m b to_upper now today uid hid new_id input x) t
                e j fresh,
          )
        ]

    settle_delete_rollback :
        (prev : Transaction F) (t : Tables F m) (e : Error) (j : ObjectId)
        → (settle_delete m b to_upper now today prev (healthy t)).0 ≡ err e
        → m.transactions.find j
            (settle_delete m b to_upper now today prev (healthy t)).1.stored.transactions
          ≡ m.transactions.find j (m.transactions.put prev.id prev t.transactions)
    unfolding settle_delete
    settle_delete_rollback prev t e j h =
        let uid = prev.user_id in
        let hid = prev.holding_id in
        let back = put_transaction m prev t in
        elim (recompute_and_persist-cases m now uid hid t) [
          | inl (e', run) ↦ elim (recompute_and_persist-cases m now uid hid back) [
            | inl (e'', again) ↦ ground (arith, run, again)
            | inr (h'', found, fits, again) ↦ ground (arith, run, again)
          ]
          | inr (h', found, fits, run) ↦ ground (
            arith,
            run,
            heal_after-ok b to_upper now uid (prev ∷ [])
                (recompute_and_persist m now uid hid (healthy t)).1,
          )
        ]

    put_back :
        (prev : Transaction F) (t : Tables F m) (j : ObjectId)
        → m.transactions.find prev.id t.transactions ≡ some prev
        → m.transactions.find j
            (m.transactions.put prev.id prev (m.transactions.remove prev.id t.transactions))
          ≡ m.transactions.find j t.transactions
    put_back prev t j found = ground (
      arith,
      m.transactions.find-put prev.id j prev (m.transactions.remove prev.id t.transactions),
      m.transactions.find-remove prev.id j t.transactions,
    )

    owned-found :
        (uid id : ObjectId) (t : Tables F m) (x : Transaction F)
        → owned_transaction m uid id t ≡ some x
        → (m.transactions.find id t.transactions ≡ some x) × (x.user_id ≡ uid)
    owned-found uid id t x h = ground arith

    -- A `Delete` that ends in an error (a later sell would be oversold) leaves every transaction as it
    -- was, if the database answers and every transaction is stored under its own id.
    pub delete_rollback :
        (uid : ObjectId) (id : Option ObjectId) (t : Tables F m) (e : Error)
        → IsKeyed t
        → (delete m b to_upper now today uid id (healthy t)).0 ≡ err e
        → SameLedger t (delete m b to_upper now today uid id (healthy t)).1.stored
    unfolding delete
    delete_rollback uid none t e keyed h j = refl
    delete_rollback uid (some id) t e keyed h j =
        elim (Option-cases (owned_transaction m uid id t)) [
          | inl absent ↦ ground arith
          | inr (prev, own) ↦
              let (found, mine) = owned-found uid id t prev own in
              let same = keyed id prev found in
              ground (
                arith,
                settle_delete_rollback prev (without_transaction prev.id t) e j,
                put_back prev t j,
              )
        ]

    settle_update_rollback :
        (prev updated x : Transaction F) (t : Tables F m) (e : Error) (j : ObjectId)
        → owned_transaction m prev.user_id prev.id t ≡ some x
        → (settle_update m b to_upper now today prev updated (healthy t)).0 ≡ err e
        → m.transactions.find j
            (settle_update m b to_upper now today prev updated (healthy t)).1.stored.transactions
          ≡ m.transactions.find j (m.transactions.put prev.id (restored prev x) t.transactions)
    unfolding settle_update restore update_transaction
    settle_update_rollback prev updated x t e j own h =
        let uid = prev.user_id in
        let hid = prev.holding_id in
        let doc = restored prev x in
        let back : Tables F m = record t {
          transactions = m.transactions.put prev.id doc t.transactions;
        } in
        elim (recompute_and_persist-cases m now uid hid t) [
          | inl (e', run) ↦ elim (recompute_and_persist-cases m now uid hid back) [
            | inl (e'', again) ↦ ground (arith, run, again)
            | inr (h'', found, fits, again) ↦ ground (arith, run, again)
          ]
          | inr (h', found, fits, run) ↦ ground (
            arith,
            run,
            heal_after-ok b to_upper now uid (prev ∷ updated ∷ [])
                (recompute_and_persist m now uid hid (healthy t)).1,
          )
        ]

    restored-patched :
        (patch prev : Transaction F) → restored prev (patched now patch prev prev) ≡ prev
    unfolding restored patched
    restored-patched patch prev = refl

    put_twice :
        (prev updated : Transaction F) (t : Tables F m) (j : ObjectId)
        → m.transactions.find prev.id t.transactions ≡ some prev
        → m.transactions.find j
            (m.transactions.put prev.id prev (m.transactions.put prev.id updated t.transactions))
          ≡ m.transactions.find j t.transactions
    put_twice prev updated t j found = ground (
      arith,
      m.transactions.find-put prev.id j prev (m.transactions.put prev.id updated t.transactions),
      m.transactions.find-put prev.id j updated t.transactions,
    )

    owned-put_patched :
        (patch prev : Transaction F) (t : Tables F m)
        → let updated = patched now patch prev prev in
          owned_transaction m prev.user_id prev.id
            (record t { transactions = m.transactions.put prev.id updated t.transactions })
          ≡ some updated
    unfolding patched
    owned-put_patched patch prev t = ground (
      arith,
      m.transactions.find-put prev.id prev.id (patched now patch prev prev) t.transactions,
    )

    -- An `Update` that ends in an error leaves every transaction as it was, its opening date included, if
    -- the database answers and every transaction is stored under its own id.
    pub update_rollback :
        (uid : ObjectId) (id : Option ObjectId) (input : TransactionInput F) (t : Tables F m)
        (e : Error)
        → IsKeyed t
        → (update m b to_upper now today uid id input (healthy t)).0 ≡ err e
        → SameLedger t (update m b to_upper now today uid id input (healthy t)).1.stored
    unfolding update
    update_rollback uid none input t e keyed h j = refl
    update_rollback uid (some id) input t e keyed h j =
        elim (Option-cases (owned_transaction m uid id t)) [
          | inl absent ↦ ground arith
          | inr (prev, own) ↦
              let (found, mine) = owned-found uid id t prev own in
              let same = keyed id prev found in
              let patch = transaction_from_input input in
              let updated = patched now patch prev prev in
              let written : Tables F m = record t {
                transactions = m.transactions.put prev.id updated t.transactions;
              } in
              ground (
                arith,
                settle_update_rollback prev updated updated written e j
                    (owned-put_patched patch prev t),
                restored-patched patch prev,
                put_twice prev updated t j,
              )
        ]
