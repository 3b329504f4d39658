-- ===== src/Examples/Memory.antt =====
-- A collection in memory: the laws of the database can be met.
use portfolio_dashboard.Prelude.{
  ◌≡◌, refl, ◌||◌, Bool, true, false, Option, some, exists, none, ==_refl, List, [], ◌∷◌,
  if◌then◌else◌, Eq, nat_eq, ◌==◌, ==_iff, arith, keep, All, Bool-cases, inl, inr,
}
use portfolio_dashboard.Prelude.Assoc.{Assoc, lookup, insert, lookup-insert}
use portfolio_dashboard.Collection.{Collection, unless}
use portfolio_dashboard.Mongo.{Mongo, Tables, snapshot_key_eq}

pub All-keep : {A : Type 0} (p : A → Bool) (xs : List A) → All (λ a. p a ≡ true) (keep p xs)
All-keep p [] = tt
All-keep p (x ∷ xs) = elim (Bool-cases (p x)) [
  | inl h ↦ rw h (h, All-keep p xs)
  | inr h ↦ rw h (All-keep p xs)
]

module _ {K A : Type 0} ⦃e : Eq K⦄ where
  abbrev without : K → Assoc K A → Assoc K A
  without k [] = []
  without k ((j, a) ∷ s) = let rest = without k s in if j == k then rest else (j, a) ∷ rest

  pub lookup-without :
      (k j : K) (s : Assoc K A) → lookup j (without k s) ≡ (if k == j then none else lookup j s)
  unfolding lookup
  lookup-without k j [] = ground arith
  lookup-without k j ((i, a) ∷ s) =
      ground (arith, lookup-without k j s, ==_iff i k, ==_iff i j, ==_iff k j)

  abbrev values : Assoc K A → List A
  values [] = []
  values ((k, a) ∷ s) = a ∷ values s

  abbrev first : (A → Bool) → List K → Assoc K A → Option A
  first p seen [] = none
  first p seen ((k, a) ∷ s) =
      if exists (λ j. j == k) seen
      then first p seen s
      else if p a
      then some a
      else first p (k ∷ seen) s

  abbrev sweep : (A → Bool) → List K → Assoc K A → Assoc K A
  sweep p seen [] = []
  sweep p seen ((k, a) ∷ s) =
      let rest = sweep p (k ∷ seen) s in
      if exists (λ j. j == k) seen || p a then rest else (k, a) ∷ rest

  pub first-found :
      (p : A → Bool) (seen : List K) (s : Assoc K A) (a : A)
      → first p seen s ≡ some a
      → (p a ≡ true) × (k : K) × (exists (λ j. j == k) seen ≡ false) × (lookup k s ≡ some a)
  unfolding lookup
  first-found p seen [] a h = absurd (ground arith)
  first-found p seen ((k, b) ∷ s) a h = elim (Bool-cases (exists (λ j. j == k) seen)) [
    | inl old ↦
        let (holds, j, unseen, found) = first-found p seen s a (ground arith) in
        (holds, j, unseen, ground (arith, ==_iff k j))
    | inr new ↦ elim (Bool-cases (p b)) [
      | inl matches ↦ (ground arith, k, new, ground (arith, ==_refl k))
      | inr other ↦
          let (holds, j, unseen, found) = first-found p (k ∷ seen) s a (ground arith) in
          (holds, j, ground arith, ground (arith, ==_iff k j))
    ]
  ]

  pub first-none :
      (p : A → Bool) (seen : List K) (s : Assoc K A) (k : K) (a : A)
      → first p seen s ≡ none
      → lookup k s ≡ some a
      → exists (λ j. j == k) seen ≡ false
      → p a ≡ false
  unfolding lookup
  first-none p seen [] k a h found new = absurd (ground arith)
  first-none p seen ((j, b) ∷ s) k a h found new =
      ground (arith, first-none p seen s k a, first-none p (j ∷ seen) s k a, ==_iff j k)

  pub lookup-sweep :
      (p : A → Bool) (seen : List K) (j : K) (s : Assoc K A)
      → lookup j (sweep p seen s)
        ≡ (if exists (λ k. k == j) seen then none else unless p (lookup j s))
  unfolding lookup
  lookup-sweep p seen j [] = ground arith
  lookup-sweep p seen j ((k, a) ∷ s) = ground (arith, lookup-sweep p (k ∷ seen) j s, ==_iff k j)

  abbrev pub memory : Collection K A
  memory = record {
    State = Assoc K A;
    find = lookup;
    put = insert;
    remove = without;
    query = λ p s. keep p (values s);
    find-put = λ k j a s. lookup-insert k j a s;
    find-remove = lookup-without;
    find_one = λ p s. first p [] s;
    remove_all = λ p s. sweep p [] s;
    find_one-found =
        λ p s a h. let (holds, k, new, found) = first-found p [] s a h in (holds, k, found);
    find_one-none = λ p s k a h found. first-none p [] s k a h found refl;
    find-remove_all = λ p j s. lookup-sweep p [] j s;
    query_sound = λ p s. All-keep p (values s);
  }

abbrev pub in_memory : (F : Type 0) → Mongo F
in_memory F = record { snapshots = memory; transactions = memory; holdings = memory }

abbrev pub no_tables : (F : Type 0) → Tables F (in_memory F)
no_tables F = record { snapshots = []; transactions = []; holdings = [] }
