-- ===== src/Transactions/Replayed.antt =====
-- What the replay that follows a write can do, if the database answers.
use portfolio_dashboard.Prelude.{◌≡◌, ◌⊎◌, Option, none, some, refl, inl, inr, Option-cases}
use portfolio_dashboard.Clock.{Time}
use portfolio_dashboard.Errors.{Error, not_found, ok, err}
use portfolio_dashboard.Double.{Double}
use portfolio_dashboard.Domain.{ObjectId, Holding}
use portfolio_dashboard.Ledger.{Position, recompute_position}
use portfolio_dashboard.Mongo.{Mongo, Tables}
use portfolio_dashboard.Exec.{healthy}
use portfolio_dashboard.Transactions.{
  with_position, update_holding, persist, recompute_and_persist, owned_holding, holding_ledger,
}

module _ {F : Type 0} ⦃d : Double F⦄ (m : Mongo F) where
  abbrev pub put_holding : ObjectId → Holding F → Tables F m → Tables F m
  put_holding hid h t = record t { holdings = m.holdings.put hid h t.holdings }

  persist-cases :
      (now : Time) (uid hid : ObjectId) (pos : Position F) (o : Option Error) (t : Tables F m)
      → ((e : Error) × (persist m now uid hid (pos, o) (healthy t) ≡ (err e, healthy t)))
        ⊎ ((h : Holding F) × (owned_holding m uid hid t ≡ some h)
            × (o ≡ none)
            × (persist m now uid hid (pos, o) (healthy t) ≡ (
              ok (with_position now pos h),
              healthy (put_holding hid (with_position now pos h) t),
            )))
  unfolding persist
  persist-cases now uid hid pos (some e) t = inl (e, refl)
  persist-cases now uid hid pos none t = elim (Option-cases (owned_holding m uid hid t)) [
    | inl e ↦ inl (not_found, rw (e, update_holding) refl)
    | inr (h, e) ↦ inr (h, e, refl, rw (e, update_holding) refl)
  ]

  -- The replay fails and changes nothing, or it stores the position of a ledger that is not oversold.
  pub recompute_and_persist-cases :
      (now : Time) (uid hid : ObjectId) (t : Tables F m)
      → let run = recompute_and_persist m now uid hid (healthy t) in
        let ledger = recompute_position (holding_ledger m uid hid t) in
        ((e : Error) × (run ≡ (err e, healthy t)))
        ⊎ ((h : Holding F) × (owned_holding m uid hid t ≡ some h)
            × (ledger.1 ≡ none)
            × (run ≡ (
              ok (with_position now ledger.0 h),
              healthy (put_holding hid (with_position now ledger.0 h) t),
            )))
  unfolding recompute_and_persist
  recompute_and_persist-cases now uid hid t =
      let ledger = recompute_position (holding_ledger m uid hid t) in
      persist-cases now uid hid ledger.0 ledger.1 t
