-- ===== src/Collection.antt =====
-- A database collection with a unique key, as an interface: the driver and the server are not part of the
-- repository. The laws are the documented behaviour of a find, an insert or update, and a delete by key.
use portfolio_dashboard.Prelude.{
  ◌≡◌, Bool-cases, inl, inr, sym, ◌∙◌, arith, Bool, true, false, Option, none, some, List,
  if◌then◌else◌, All, Eq, ◌==◌, ==_refl,
}

-- The document, if it does not match the filter.
abbrev pub unless : {A : Type 0} → (A → Bool) → Option A → Option A
unless p none = none
unless p (some a) = if p a then none else some a

pub record Collection (K A : Type 0) ⦃e : Eq K⦄ : Type 1 where
  pub State : Type 0
  -- FindOne by the key
  pub find : K → State → Option A
  -- InsertOne, or UpdateOne of the document with the key to the given document
  pub put : K → A → State → State
  -- DeleteOne by the key
  pub remove : K → State → State
  -- Find with a filter, in the order that the store asks for
  pub query : (A → Bool) → State → List A
  pub find-put :
      (k j : K) (a : A) (s : State) → find j (put k a s) ≡ (if k == j then some a else find j s)
  pub find-remove :
      (k j : K) (s : State) → find j (remove k s) ≡ (if k == j then none else find j s)
  -- FindOne with a filter
  pub find_one : (A → Bool) → State → Option A
  -- DeleteMany with a filter
  pub remove_all : (A → Bool) → State → State
  pub query_sound : (p : A → Bool) (s : State) → All (λ a. p a ≡ true) (query p s)
  pub find_one-found :
      (p : A → Bool) (s : State) (a : A)
      → find_one p s ≡ some a
      → (p a ≡ true) × (k : K) × (find k s ≡ some a)
  pub find_one-none :
      (p : A → Bool) (s : State) (k : K) (a : A)
      → find_one p s ≡ none
      → find k s ≡ some a
      → p a ≡ false
  pub find-remove_all :
      (p : A → Bool) (j : K) (s : State) → find j (remove_all p s) ≡ unless p (find j s)

unless-some : {A : Type 0} (p : A → Bool) (o : Option A) (a : A) → unless p o ≡ some a → p a ≡ false
unless-some p none a h = absurd (ground arith)
unless-some p (some b) a h = elim (Bool-cases (p b)) [
  | inl matches ↦ absurd (ground arith)
  | inr kept ↦ ground arith
]

-- What is left after a DeleteMany does not match its filter.
pub remove_all_left :
    {K A : Type 0} ⦃e : Eq K⦄ (c : Collection K A) (p : A → Bool) (j : K) (a : A) (s : c.State)
    → c.find j (c.remove_all p s) ≡ some a
    → p a ≡ false
remove_all_left c p j a s h = unless-some p (c.find j s) a (sym (c.find-remove_all p j s) ∙ h)

pub find-put_self :
    {K A : Type 0} ⦃e : Eq K⦄ (c : Collection K A) (k : K) (a : A) (s : c.State)
    → c.find k (c.put k a s) ≡ some a
find-put_self c k a s = ground (arith, c.find-put k k a s, ==_refl k)
