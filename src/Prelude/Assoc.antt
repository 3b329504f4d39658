-- ===== src/Prelude/Assoc.antt =====
-- Go maps as association lists. The program never relies on a map's order.
use mathlib.Core.Path.{◌≡◌, refl}
use mathlib.Core.Option.{Option, none, some}
use mathlib.Core.List.{List, [], ◌∷◌}
use native.Mathlib.Omega.{arith}
use portfolio_dashboard.Prelude.Tests.{if◌then◌else◌}
use portfolio_dashboard.Prelude.Beq.{Eq, ◌==◌, ==_iff, ==_refl}

abbrev pub Assoc {ℓ κ} : Type ℓ → Type κ → Type (ℓ ⊔ κ)
Assoc K V = List (K × V)

module _ {ℓ κ} {K : Type ℓ} {V : Type κ} ⦃e : Eq K⦄ where
  -- `v, ok := m[k]`
  unfoldable pub lookup : K → Assoc K V → Option V
  lookup key [] = none
  lookup key ((other, v) ∷ rest) = if other == key then some v else lookup key rest

  -- `m[k] = v`
  unfoldable pub insert : K → V → Assoc K V → Assoc K V
  insert key new [] = (key, new) ∷ []
  insert key new ((other, v) ∷ rest) =
      if other == key then (other, new) ∷ rest else (other, v) ∷ insert key new rest

  pub lookup-insert :
      (key other : K) (new : V) (m : Assoc K V)
      → lookup other (insert key new m) ≡ (if key == other then some new else lookup other m)
  unfolding lookup insert
  lookup-insert key other new [] = refl
  lookup-insert key other new ((third, v) ∷ rest) = ground (
    arith,
    lookup-insert key other new rest,
    ==_iff key other,
    ==_iff third key,
    ==_iff third other,
  )

  pub lookup-insert_self :
      (key : K) (new : V) (m : Assoc K V) → lookup key (insert key new m) ≡ some new
  lookup-insert_self key new m = rw (lookup-insert key key new m, ==_refl key)
