-- ===== src/SnapshotStore/Refusal.antt =====
-- Which rows `Upsert` accepts.
use portfolio_dashboard.Prelude.{
  ◌≡◌, ◌≢◌, ◌⊎◌, inl, inr, true, false, [], ◌∷◌, All, arith, refl, nat_beq_iff, Bool-cases, ap,
}
use portfolio_dashboard.Clock.{Time}
use portfolio_dashboard.Errors.{ok, err, bad_snapshot}
use portfolio_dashboard.Snapshot.{
  SnapshotSource, RegionSnapshot, PortfolioSnapshot, is_valid_source,
}
use portfolio_dashboard.Mongo.{Mongo, Tables}
use portfolio_dashboard.Exec.{healthy}
use portfolio_dashboard.SnapshotStore.{Regions, is_empty, is_refused, has_invalid_source, upsert}
use portfolio_dashboard.SnapshotStore.Upsert.{upsert-accepted}

is_valid_source-cases :
    (s : SnapshotSource)
    → is_valid_source s ≡ true
    → (s ≡ SnapshotSource.cron) ⊎ (s ≡ SnapshotSource.manual)
unfolding is_valid_source
is_valid_source-cases SnapshotSource.cron h = inl refl
is_valid_source-cases SnapshotSource.manual h = inr refl
is_valid_source-cases SnapshotSource.unset h = absurd (ground arith)

module _ {F : Type 0} where
  -- A region of cron's or of the user's.
  abbrev pub HasSource : RegionSnapshot F → Type 0
  HasSource r = (r.source ≡ SnapshotSource.cron) ⊎ (r.source ≡ SnapshotSource.manual)

  -- The row has an owner and at least one region, and each region is cron's or the user's.
  abbrev pub IsAcceptable : PortfolioSnapshot F → Type 0
  IsAcceptable snap =
      (snap.user_id ≢ 0) × (snap.buckets ≢ []) × All (λ e. HasSource e.1) snap.buckets

  HasSource-is_valid_source : (r : RegionSnapshot F) → HasSource r → is_valid_source r.source ≡ true
  unfolding is_valid_source
  HasSource-is_valid_source r (inl cron) = rw cron refl
  HasSource-is_valid_source r (inr manual) = rw manual refl

  has_invalid_source-All :
      (rs : Regions F) → has_invalid_source rs ≡ false → All (λ e. HasSource e.1) rs
  unfolding has_invalid_source
  has_invalid_source-All [] h = tt
  has_invalid_source-All ((k, r) ∷ rs) h =
      (is_valid_source-cases r.source (ground arith), has_invalid_source-All rs (ground arith))

  All-has_invalid_source :
      (rs : Regions F) → All (λ e. HasSource e.1) rs → has_invalid_source rs ≡ false
  unfolding has_invalid_source
  All-has_invalid_source [] h = refl
  All-has_invalid_source ((k, r) ∷ rs) h =
      ground (arith, HasSource-is_valid_source r h.0, All-has_invalid_source rs h.1)

  is_refused-IsAcceptable :
      (snap : PortfolioSnapshot F) → is_refused snap ≡ false → IsAcceptable snap
  unfolding is_refused
  is_refused-IsAcceptable snap h = (
    λ nobody. ground (arith, nat_beq_iff snap.user_id 0),
    λ empty. absurd (ground arith),
    has_invalid_source-All snap.buckets (ground arith),
  )

  nonempty : (rs : Regions F) → rs ≢ [] → is_empty rs ≡ false
  nonempty [] h = absurd (h refl)
  nonempty (e ∷ rs) h = refl

  IsAcceptable-is_refused :
      (snap : PortfolioSnapshot F) → IsAcceptable snap → is_refused snap ≡ false
  unfolding is_refused
  IsAcceptable-is_refused snap (owned, given, sourced) = ground (
    arith,
    owned,
    nat_beq_iff snap.user_id 0,
    nonempty snap.buckets given,
    All-has_invalid_source snap.buckets sourced,
  )

  is_refused-not_IsAcceptable :
      (snap : PortfolioSnapshot F) → is_refused snap ≡ true → ¬ IsAcceptable snap
  is_refused-not_IsAcceptable snap h acceptable =
      absurd (ground (arith, IsAcceptable-is_refused snap acceptable))

  module _ (m : Mongo F) where
    -- With a database that answers, an upsert ends well exactly if its row has an owner and at least one region,
    -- and each region is marked as cron's or the user's; any other row is refused and nothing is stored.
    pub upsert-IsAcceptable :
        (now : Time) (snap : PortfolioSnapshot F) (t : Tables F m)
        → (IsAcceptable snap × ((upsert m now snap (healthy t)).0 ≡ ok tt))
          ⊎ ((¬ IsAcceptable snap)
              × (upsert m now snap (healthy t) ≡ (err bad_snapshot, healthy t)))
    unfolding upsert
    upsert-IsAcceptable now snap t = elim (Bool-cases (is_refused snap)) [
      | inr accepted ↦ inl (
        is_refused-IsAcceptable snap accepted,
        ap (λ r. r.0) (upsert-accepted m now snap t accepted),
      )
      | inl refused ↦ inr (is_refused-not_IsAcceptable snap refused, rw refused refl)
    ]
