-- ===== src/Exec/Success.antt =====
-- What an action has done that succeeded, whichever calls could have failed.
use portfolio_dashboard.Prelude.{◌≡◌, ◌⊎◌, inl, inr, refl, Bool, true, false, List, [], ◌∷◌, arith}
use portfolio_dashboard.Errors.{Result, ok, err}
use portfolio_dashboard.Exec.{World, Exec, call, call_with, continue, gets, ◌>>=◌}

module _ {S A B : Type 0} where
  continue-ok :
      (r : Result A) (f : A → Exec S B) (w : World S) (b : B)
      → (continue r f w).0 ≡ ok b
      → (x : A) × (r ≡ ok x) × (continue r f w ≡ f x w)
  continue-ok (ok x) f w b h = (x, refl, refl)
  continue-ok (err e) f w b h = absurd (ground arith)

  -- The first part succeeded, and the second went on from where it ended.
  pub bind-ok :
      (m : Exec S A) (f : A → Exec S B) (w : World S) (b : B)
      → ((m >>= f) w).0 ≡ ok b
      → (x : A) × ((m w).0 ≡ ok x) × ((m >>= f) w ≡ f x (m w).1)
  bind-ok m f w b h = continue-ok (m w).0 f (m w).1 b h

  continue-cases :
      (r : Result A) (f : A → Exec S B) (w : World S)
      → ((x : A) × (r ≡ ok x) × (continue r f w ≡ f x w)) ⊎ ((continue r f w).1 ≡ w)
  continue-cases (ok x) f w = inl (x, refl, refl)
  continue-cases (err e) f w = inr refl

  -- The first part succeeded and the second went on, or the whole ended where the first part did.
  pub bind-cases :
      (m : Exec S A) (f : A → Exec S B) (w : World S)
      → ((x : A) × ((m w).0 ≡ ok x) × ((m >>= f) w ≡ f x (m w).1)) ⊎ (((m >>= f) w).1 ≡ (m w).1)
  bind-cases m f w = continue-cases (m w).0 f (m w).1

module _ {S A : Type 0} where
  call_with-ok :
      (faults : List Bool) (f : S → Result A × S) (s : S) (x : A)
      → (call_with faults f s).0 ≡ ok x
      → ((f s).0 ≡ ok x) × ((call_with faults f s).1.stored ≡ (f s).1)
  call_with-ok (true ∷ more) f s x h = absurd (ground arith)
  call_with-ok (false ∷ more) f s x h = (h, refl)
  call_with-ok [] f s x h = (h, refl)

  pub call-ok :
      (f : S → Result A × S) (w : World S) (x : A)
      → (call f w).0 ≡ ok x
      → ((f w.stored).0 ≡ ok x) × ((call f w).1.stored ≡ (f w.stored).1)
  call-ok f w x h = call_with-ok w.faults f w.stored x h

  -- A read of the stored data, and what came after it.
  pub gets-ok :
      {B : Type 0} (g : S → A) (f : A → Exec S B) (w : World S) (b : B)
      → ((gets g >>= f) w).0 ≡ ok b
      → (v : World S) × (v.stored ≡ w.stored) × ((gets g >>= f) w ≡ f (g w.stored) v)
  gets-ok g f w b h = read w.faults g f w.stored b h
    where
      read :
          {B : Type 0} (faults : List Bool) (g : S → A) (f : A → Exec S B) (s : S) (b : B)
          → ((gets g >>= f) (record { stored = s; faults = faults })).0 ≡ ok b
          → (v : World S) × (v.stored ≡ s)
            × ((gets g >>= f) (record { stored = s; faults = faults }) ≡ f (g s) v)
      read (true ∷ more) g f s b h = absurd (ground arith)
      read (false ∷ more) g f s b h = (record { stored = s; faults = more }, refl, refl)
      read [] g f s b h = (record { stored = s; faults = [] }, refl, refl)

  call_with-cases :
      (faults : List Bool) (f : S → Result A × S) (s : S)
      → ((call_with faults f s).1.stored ≡ s) ⊎ ((call_with faults f s).1.stored ≡ (f s).1)
  call_with-cases (true ∷ more) f s = inl refl
  call_with-cases (false ∷ more) f s = inr refl
  call_with-cases [] f s = inr refl

  -- A call does nothing, or what it is to do.
  pub call-cases :
      (f : S → Result A × S) (w : World S)
      → ((call f w).1.stored ≡ w.stored) ⊎ ((call f w).1.stored ≡ (f w.stored).1)
  call-cases f w = call_with-cases w.faults f w.stored
