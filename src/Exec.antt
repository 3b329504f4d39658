-- ===== src/Exec.antt =====
-- Services that call the database and may fail. What was written before a failure stays written, so the
-- state comes back beside the error too. The environment decides which database calls fail. A call that fails
-- is taken not to have been applied: a write that the database applies although its answer is lost, as in a
-- timeout, is outside the model.
pub mod Steps
pub mod Success
use portfolio_dashboard.Prelude.{ℕ, Bool, true, false, List, [], ◌∷◌, ◌≡◌, refl, ◌⊎◌, inl, inr}
use portfolio_dashboard.Errors.{Error, database, Result, ok, err}

-- The stored data, and for each database call to come whether it fails (none does after the list).
pub record World (S : Type 0) : Type 0 where
  pub stored : S
  pub faults : List Bool

abbrev pub Exec : Type 0 → Type 0 → Type 0
Exec S A = World S → Result A × World S

-- A database that answers every call.
abbrev pub healthy : {S : Type 0} → S → World S
healthy s = record { stored = s; faults = [] }

module _ {S A : Type 0} where
  abbrev pub pure : A → Exec S A
  pure a w = (ok a, w)

  abbrev pub raise : Error → Exec S A
  raise e w = (err e, w)

  -- One call of the database. A failing call is one that was not applied.
  abbrev pub call_with : List Bool → (S → Result A × S) → S → Result A × World S
  call_with (true ∷ more) f s = (err database, record { stored = s; faults = more })
  call_with (false ∷ more) f s = let (r, s') = f s in (r, record { stored = s'; faults = more })
  call_with [] f s = let (r, s') = f s in (r, record { stored = s'; faults = [] })

  abbrev pub call : (S → Result A × S) → Exec S A
  call f w = call_with w.faults f w.stored

  abbrev pub gets : (S → A) → Exec S A
  gets f = call (λ s. (ok (f s), s))

  -- The error as a value, for code that looks at it.
  abbrev pub attempt : Exec S A → Exec S (Result A)
  attempt m w = let (r, w') = m w in (ok r, w')

abbrev pub modify : {S : Type 0} → (S → S) → Exec S (Unit {0})
modify f = call (λ s. (ok tt, f s))

module _ {S A B : Type 0} where
  abbrev pub continue : Result A → (A → Exec S B) → Exec S B
  continue (ok a) f w = f a w
  continue (err e) f w = (err e, w)

  infixl 5 ◌>>=◌ ◌>>◌
  abbrev pub ◌>>=◌ : Exec S A → (A → Exec S B) → Exec S B
  ◌>>=◌ m f w = let (r, w') = m w in continue r f w'

  abbrev pub ◌>>◌ : Exec S A → Exec S B → Exec S B
  m >> k = m >>= λ _. k
