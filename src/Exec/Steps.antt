-- ===== src/Exec/Steps.antt =====
-- How an action may change what is stored, whichever calls fail: one rule for each way to build an action.
use portfolio_dashboard.Prelude.{
  ◌≡◌, Option, none, some, Bool, true, false, List, [], ◌∷◌, if◌then◌else◌, refl,
}
use portfolio_dashboard.Errors.{Error, Result, ok, err}
use portfolio_dashboard.Exec.{
  World, Exec, pure, raise, gets, call, call_with, modify, continue, ◌>>=◌, attempt,
}

-- What is stored before and after an action is related.
pub record Steps {S A : Type 0} (R : S → S → Type 0) (m : Exec S A) : Type 0 where
  pub at : (w : World S) → R w.stored (m w).1.stored

pub record IsPreorder {S : Type 0} (R : S → S → Type 0) : Type 0 where
  pub reflexive : (s : S) → R s s
  pub transitive : (r s t : S) → R r s → R s t → R r t

module _ {S : Type 0} (R : S → S → Type 0) (order : IsPreorder R) where
  open order use {reflexive, transitive}

  pub Steps-pure : {A : Type 0} (a : A) → Steps R (pure a)
  Steps-pure a = record { at = λ w. reflexive w.stored }

  pub Steps-raise : {A : Type 0} (e : Error) → Steps R (raise {A = A} e)
  Steps-raise e = record { at = λ w. reflexive w.stored }

  pub Steps-if :
      {A : Type 0} (b : Bool) (m n : Exec S A)
      → (b ≡ true → Steps R m)
      → (b ≡ false → Steps R n)
      → Steps R (if b then m else n)
  Steps-if true m n h k = h refl
  Steps-if false m n h k = k refl

  pub Steps-call_with :
      {A : Type 0} (faults : List Bool) (f : S → Result A × S) (s : S)
      → ((s : S) → R s (f s).1)
      → R s (call_with faults f s).1.stored
  Steps-call_with (true ∷ more) f s h = reflexive s
  Steps-call_with (false ∷ more) f s h = h s
  Steps-call_with [] f s h = h s

  pub Steps-call : {A : Type 0} (f : S → Result A × S) → ((s : S) → R s (f s).1) → Steps R (call f)
  Steps-call f h = record { at = λ w. Steps-call_with w.faults f w.stored h }

  pub Steps-modify : (f : S → S) → ((s : S) → R s (f s)) → Steps R (modify f)
  Steps-modify f h = Steps-call (λ s. (ok tt, f s)) h

  pub Steps-continue :
      {A B : Type 0} (r : Result A) (f : A → Exec S B) (w : World S)
      → ((a : A) → Steps R (f a))
      → R w.stored (continue r f w).1.stored
  Steps-continue (ok a) f w h = (h a).at w
  Steps-continue (err e) f w h = reflexive w.stored

  pub Steps-bind :
      {A B : Type 0} (m : Exec S A) (f : A → Exec S B)
      → Steps R m
      → ((a : A) → Steps R (f a))
      → Steps R (m >>= f)
  Steps-bind m f h k = record {
    at = λ w.
        transitive w.stored (m w).1.stored ((m >>= f) w).1.stored (h.at w)
          (Steps-continue (m w).0 f (m w).1 k);
  }

  pub Steps-option :
      {A B : Type 0} (o : Option A) (m : Exec S B) (f : A → Exec S B)
      → Steps R m
      → ((a : A) → Steps R (f a))
      → Steps R (elim o [ none ↦ m | some a ↦ f a ])
  Steps-option none m f h k = h
  Steps-option (some a) m f h k = k a

  pub Steps-attempt : {A : Type 0} (m : Exec S A) → Steps R m → Steps R (attempt m)
  Steps-attempt m h = record { at = h.at }

  -- A read changes nothing.
  pub Steps-read : {A : Type 0} (g : S → A) → Steps R (gets g)
  Steps-read g = Steps-call (λ s. (ok (g s), s)) reflexive

  Steps-gets_with :
      {A B : Type 0} (faults : List Bool) (g : S → A) (f : A → Exec S B) (s : S)
      → ((s : S) → Steps R (f (g s)))
      → let (r, w) = call_with faults (λ s. (ok (g s), s)) s in R s (continue r f w).1.stored
  Steps-gets_with (true ∷ more) g f s h = reflexive s
  Steps-gets_with (false ∷ more) g f s h = (h s).at (record { stored = s; faults = more })
  Steps-gets_with [] g f s h = (h s).at (record { stored = s; faults = [] })

  -- The rest of the block may use that the value was read from a store.
  pub Steps-gets :
      {A B : Type 0} (g : S → A) (f : A → Exec S B)
      → ((s : S) → Steps R (f (g s)))
      → Steps R (gets g >>= f)
  Steps-gets g f h = record { at = λ w. Steps-gets_with w.faults g f w.stored h }
