-- ===== src/Heal/Scope.antt =====
-- What a heal can and cannot write.
use mathlib.Core.Path.{subst}
use portfolio_dashboard.Prelude.{
  ◌≡◌, ◌≤◌, ◌&&◌, true, false, some, List, [], ◌∷◌, String, arith, refl, sym, ap, ◌∙◌,
  if◌then◌else◌, inl, inr, ltb, leb, nat_beq, ◌==◌, All, Option-cases,
}
use portfolio_dashboard.Clock.{Time, utc_date}
use portfolio_dashboard.Double.{Double}
use portfolio_dashboard.Domain.{ObjectId, Transaction, Holding}
use portfolio_dashboard.Snapshot.{PortfolioSnapshot}
use portfolio_dashboard.Mongo.{Mongo, Tables, SnapshotKey, snapshot_key_eq}
use portfolio_dashboard.Exec.{World}
use portfolio_dashboard.Exec.Steps.{Steps, IsPreorder, Steps-pure, Steps-if, Steps-bind, Steps-gets}
use portfolio_dashboard.SnapshotStore.{
  is_empty, upserted, upsert, find_snapshot, put_snapshot, in_window, list_snapshots,
}
use portfolio_dashboard.SnapshotStore.Upsert.{upsert-cases}
use portfolio_dashboard.Heal.{
  rebuilt, heal_row, heal_rows, recompute_from, list_holdings, list_transactions,
}

outside_ne :
    (uid : ObjectId) (from to date : Time) (j : SnapshotKey)
    → (nat_beq uid j.0 && leb from j.1 && leb j.1 to) ≡ false
    → from ≤ date
    → date ≤ to
    → ((uid, date) == j) ≡ false
outside_ne uid from to date (u, t) out low high = ground arith

module _ {F : Type 0} ⦃d : Double F⦄ (m : Mongo F) where
  -- Not a row of this user's in the window of days.
  abbrev pub Outside : ObjectId → Time → Time → SnapshotKey → Type 0
  Outside uid from to key = (nat_beq uid key.0 && leb from key.1 && leb key.1 to) ≡ false

  -- Outside the window the rows are as they were, and so are the other collections.
  pub record Kept (uid : ObjectId) (from to : Time) (s t : Tables F m) : Type 0 where
    pub rows :
        (j : SnapshotKey)
        → Outside uid from to j
        → m.snapshots.find j t.snapshots ≡ m.snapshots.find j s.snapshots
    pub transactions : t.transactions ≡ s.transactions
    pub holdings : t.holdings ≡ s.holdings

  Kept-refl : (uid : ObjectId) (from to : Time) (s : Tables F m) → Kept uid from to s s
  Kept-refl uid from to s = record { rows = λ j out. refl; transactions = refl; holdings = refl }

  Kept-trans :
      (uid : ObjectId) (from to : Time) (r s t : Tables F m)
      → Kept uid from to r s
      → Kept uid from to s t
      → Kept uid from to r t
  Kept-trans uid from to r s t h k = record {
    rows = λ j out. k.rows j out ∙ h.rows j out;
    transactions = k.transactions ∙ h.transactions;
    holdings = k.holdings ∙ h.holdings;
  }

  Kept-IsPreorder : (uid : ObjectId) (from to : Time) → IsPreorder (Kept uid from to)
  Kept-IsPreorder uid from to = record {
    reflexive = Kept-refl uid from to;
    transitive = Kept-trans uid from to;
  }

  put-Kept :
      (from to : Time) (snap doc : PortfolioSnapshot F) (s : Tables F m)
      → from ≤ utc_date snap.date
      → utc_date snap.date ≤ to
      → Kept snap.user_id from to s (put_snapshot m snap.user_id snap.date doc s)
  put-Kept from to snap doc s low high = record {
    rows = λ j out.
        let key : SnapshotKey = (snap.user_id, utc_date snap.date) in
        m.snapshots.find-put key j doc s.snapshots
        ∙ ap (λ b. if b then some doc else m.snapshots.find j s.snapshots)
            (outside_ne snap.user_id from to (utc_date snap.date) j out low high);
    transactions = refl;
    holdings = refl;
  }

  upsert-Kept :
      (now : Time) (from to : Time) (snap : PortfolioSnapshot F) (w : World (Tables F m))
      → from ≤ utc_date snap.date
      → utc_date snap.date ≤ to
      → Kept snap.user_id from to w.stored (upsert m now snap w).1.stored
  upsert-Kept now from to snap w low high = elim (upsert-cases m now snap w) [
    | inl e ↦
        subst (Kept snap.user_id from to w.stored) (sym e) (Kept-refl snap.user_id from to w.stored)
    | inr e ↦ subst (Kept snap.user_id from to w.stored) (sym e) (
        put-Kept from to snap (upserted now snap (find_snapshot m snap.user_id snap.date w.stored))
          w.stored low high)
  ]

  -- The day of a row that a window's query returned.
  in_window_day :
      (uid : ObjectId) (now from : Time) (snap : PortfolioSnapshot F)
      → in_window uid (utc_date from) (utc_date now) snap ≡ true
      → (utc_date from ≤ utc_date snap.date) × (utc_date snap.date ≤ utc_date now)
  unfolding in_window utc_date
  in_window_day uid now from snap h = ground arith

  module _ (to_upper : String → String) (now from : Time) (uid : ObjectId) where
    abbrev KeptHere : Tables F m → Tables F m → Type 0
    KeptHere = Kept uid (utc_date from) (utc_date now)

    abbrev here : IsPreorder KeptHere
    here = Kept-IsPreorder uid (utc_date from) (utc_date now)

    abbrev snaps_in : Tables F m → List (PortfolioSnapshot F)
    snaps_in t = m.snapshots.query (in_window uid (utc_date from) (utc_date now)) t.snapshots

    heal_row-Steps :
        (holdings : List (Holding F)) (txns : List (Transaction F)) (snap : PortfolioSnapshot F)
        → in_window uid (utc_date from) (utc_date now) snap ≡ true
        → Steps KeptHere (heal_row m to_upper now uid holdings txns snap)
    unfolding heal_row rebuilt
    heal_row-Steps holdings txns snap h = elim (Option-cases snap.lines) [
      | inl e ↦ rw e (Steps-pure KeptHere here tt)
      | inr (stored, e) ↦
          let (low, high) = in_window_day uid now from snap h in
          rw e (record {
            at = λ w.
                upsert-Kept now (utc_date from) (utc_date now)
                  (rebuilt to_upper uid holdings txns snap stored) w low high;
          })
    ]

    heal_rows-Steps :
        (holdings : List (Holding F)) (txns : List (Transaction F))
        (snaps : List (PortfolioSnapshot F))
        → All (λ snap. in_window uid (utc_date from) (utc_date now) snap ≡ true) snaps
        → Steps KeptHere (heal_rows m to_upper now uid holdings txns snaps)
    unfolding heal_rows
    heal_rows-Steps holdings txns [] h = Steps-pure KeptHere here tt
    heal_rows-Steps holdings txns (snap ∷ snaps) h =
        Steps-bind KeptHere here (heal_row m to_upper now uid holdings txns snap) _
          (heal_row-Steps holdings txns snap h.0) (λ _. heal_rows-Steps holdings txns snaps h.1)

    recompute_from-Steps : Steps KeptHere (recompute_from m to_upper now uid from)
    unfolding recompute_from list_snapshots list_holdings list_transactions
    recompute_from-Steps =
        Steps-if KeptHere here (ltb (utc_date now) (utc_date from)) _ _
          (λ _. Steps-pure KeptHere here tt)
          (λ _. Steps-gets KeptHere here _ _ (λ s.
            Steps-if KeptHere here (is_empty (snaps_in s)) _ _ (λ _. Steps-pure KeptHere here tt)
              (λ _. Steps-gets KeptHere here _ _ (λ t.
                Steps-gets KeptHere here _ _ (λ u.
                  heal_rows-Steps _ _ (snaps_in s) (m.snapshots.query_sound _ s.snapshots))))))

    -- A heal writes no row of another user, none before its first day and none after today, and neither
    -- transactions nor holdings, whichever calls of the database fail.
    pub recompute_from-Kept :
        (w : World (Tables F m))
        → Kept uid
            (utc_date from)
            (utc_date now)
            w.stored
            (recompute_from m to_upper now uid from w).1.stored
    recompute_from-Kept = recompute_from-Steps.at
