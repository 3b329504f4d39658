-- ===== src/SnapshotStore/Merge.antt =====
-- The merge of an incoming snapshot with the stored one.
use portfolio_dashboard.Prelude.{
  ◌≡◌, false, Option, none, some, [], ◌∷◌, String, if◌then◌else◌, ◌==◌, ==_iff, ==_false_symm,
  arith, refl, string_eq, Bool-cases, Option-cases, inl, inr,
}
use portfolio_dashboard.Prelude.Assoc.{lookup, insert, lookup-insert}
use portfolio_dashboard.Snapshot.{RegionSnapshot, is_manual}
use portfolio_dashboard.SnapshotStore.{Regions, manual_regions, merge_regions}

-- No key stands twice, as in a Go map.
abbrev pub IsMap : {F : Type 0} → Regions F → Type 0
IsMap [] = Unit
IsMap ((k, v) ∷ m) = (lookup k m ≡ none) × IsMap m

-- A region that the user has overridden.
abbrev pub manual_only : {F : Type 0} → Option (RegionSnapshot F) → Option (RegionSnapshot F)
manual_only none = none
manual_only (some r) = if is_manual r.source then some r else none

abbrev pub first_of :
    {F : Type 0} → Option (RegionSnapshot F) → Option (RegionSnapshot F) → Option (RegionSnapshot F)
first_of none o = o
first_of (some r) o = some r

module _ {F : Type 0} where
  lookup-manual_regions :
      (k : String) (m : Regions F)
      → IsMap m
      → lookup k (manual_regions m) ≡ manual_only (lookup k m)
  unfolding lookup manual_regions
  lookup-manual_regions k [] h = refl
  lookup-manual_regions k ((j, v) ∷ m) h = ground (arith, lookup-manual_regions k m h.1, ==_iff j k)

  lookup-merge_regions :
      (k : String) (rs merged : Regions F)
      → lookup k (merge_regions rs merged) ≡ first_of (lookup k merged) (lookup k rs)
  unfolding merge_regions lookup
  lookup-merge_regions k [] merged = ground arith
  lookup-merge_regions k ((j, v) ∷ rs) merged = ground (
    arith,
    lookup-merge_regions k rs merged,
    lookup-merge_regions k rs (insert j v merged),
    lookup-insert j k v merged,
    ==_iff j k,
  )

  -- A region that the user has overridden stays as it is, and any other is the incoming one.
  pub lookup-merge :
      (k : String) (stored incoming : Regions F)
      → IsMap stored
      → lookup k (merge_regions incoming (manual_regions stored))
        ≡ first_of (manual_only (lookup k stored)) (lookup k incoming)
  lookup-merge k stored incoming h =
      rw (lookup-merge_regions k incoming (manual_regions stored), lookup-manual_regions k stored h)

  lookup-insert_absent :
      (j k : String) (v : RegionSnapshot F) (m : Regions F)
      → lookup j m ≡ none
      → (k == j) ≡ false
      → lookup j (insert k v m) ≡ none
  lookup-insert_absent j k v m h e = rw (lookup-insert k j v m, e) h

  pub IsMap-insert :
      (k : String) (v : RegionSnapshot F) (m : Regions F) → IsMap m → IsMap (insert k v m)
  unfolding insert
  IsMap-insert k v [] h = (unfold lookup in refl, tt)
  IsMap-insert k v ((j, w) ∷ m) h = elim (Bool-cases (j == k)) [
    | inl e ↦ rw e h
    | inr e ↦ rw e (lookup-insert_absent j k v m h.0 (==_false_symm j k e), IsMap-insert k v m h.1)
  ]

  IsMap-manual_regions : (m : Regions F) → IsMap m → IsMap (manual_regions m)
  unfolding manual_regions
  IsMap-manual_regions [] h = h
  IsMap-manual_regions ((k, v) ∷ m) h = elim (Bool-cases (is_manual v.source)) [
    | inl e ↦ rw e (rw (lookup-manual_regions k m h.1) (rw h.0 refl), IsMap-manual_regions m h.1)
    | inr e ↦ rw e (IsMap-manual_regions m h.1)
  ]

  IsMap-merge_regions : (rs merged : Regions F) → IsMap merged → IsMap (merge_regions rs merged)
  unfolding merge_regions
  IsMap-merge_regions [] merged h = h
  IsMap-merge_regions ((k, v) ∷ rs) merged h = elim (Option-cases (lookup k merged)) [
    | inl e ↦ rw e (IsMap-merge_regions rs (insert k v merged) (IsMap-insert k v merged h))
    | inr (old, e) ↦ rw e (IsMap-merge_regions rs merged h)
  ]

  pub IsMap-merge :
      (stored incoming : Regions F)
      → IsMap stored
      → IsMap (merge_regions incoming (manual_regions stored))
  IsMap-merge stored incoming h =
      IsMap-merge_regions incoming (manual_regions stored) (IsMap-manual_regions stored h)
