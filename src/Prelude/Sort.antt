-- ===== src/Prelude/Sort.antt =====
-- A stable sort (`sort.SliceStable`, `slices.SortStableFunc`) by a strict order `before`.
use mathlib.Core.Path.{◌≡◌, refl, sym, ap₂, subst, subst₂, ◌∙◌}
use mathlib.Core.Logic.{◌⊎◌, inl, inr}
use mathlib.Core.Bool.{Bool, true, false}
use mathlib.Core.List.{List, [], ◌∷◌, Permᴰ}
use native.Mathlib.Omega.{arith}
use portfolio_dashboard.Prelude.Tests.{if◌then◌else◌}
use portfolio_dashboard.Prelude.Lists.{All}

-- In front of the first element that does not come before `x`.
unfoldable pub insert {ℓ} : {A : Type ℓ} → (A → A → Bool) → A → List A → List A
insert before x [] = x ∷ []
insert before x (y ∷ ys) =
    let rest = y ∷ insert before x ys in if before y x then rest else x ∷ y ∷ ys

unfoldable pub sort {ℓ} : {A : Type ℓ} → (A → A → Bool) → List A → List A
unfolding insert
sort before [] = []
sort before (x ∷ xs) = insert before x (sort before xs)

-- Neither the same place nor a tie: one of the two comes strictly first.
abbrev pub Apart {ℓ} : {A : Type ℓ} → (A → A → Bool) → A → A → Type 0
Apart before x y =
    ((before x y ≡ true) × (before y x ≡ false)) ⊎ ((before y x ≡ true) × (before x y ≡ false))

-- No two elements of the list tie.
abbrev pub Tieless {ℓ} : {A : Type ℓ} → (A → A → Bool) → List A → Type 0
Tieless before [] = Unit
Tieless before (x ∷ xs) = All (Apart before x) xs × Tieless before xs

module _ {ℓ} {A : Type ℓ} (before : A → A → Bool) where
  insert-insert_lt :
      (x y : A) (l : List A)
      → ((a b c : A) → before a b ≡ true → before b c ≡ true → before a c ≡ true)
      → before x y ≡ true
      → before y x ≡ false
      → insert before x (insert before y l) ≡ insert before y (insert before x l)
  unfolding insert
  insert-insert_lt x y [] trans h k = ground arith
  insert-insert_lt x y (z ∷ l) trans h k =
      ground (arith, trans z x y, insert-insert_lt x y l trans h k)

  pub insert-insert :
      (x y : A) (l : List A)
      → ((a b c : A) → before a b ≡ true → before b c ≡ true → before a c ≡ true)
      → Apart before x y
      → insert before x (insert before y l) ≡ insert before y (insert before x l)
  insert-insert x y l trans (inl (h, k)) = insert-insert_lt x y l trans h k
  insert-insert x y l trans (inr (h, k)) = sym (insert-insert_lt y x l trans h k)

  All-perm {κ} : (P : A → Type κ) {xs ys : List A} → Permᴰ xs ys → All P xs → All P ys
  All-perm P Permᴰ.nil h = h
  All-perm P (Permᴰ.cons e p) h = (subst P e h.0, All-perm P p h.1)
  All-perm P (Permᴰ.swap e e') h = (subst P e' h.1.0, (subst P e h.0, h.1.1))
  All-perm P (Permᴰ.trans p q) h = All-perm P q (All-perm P p h)

  Apart-symm : (x y : A) → Apart before x y → Apart before y x
  Apart-symm x y (inl h) = inr h
  Apart-symm x y (inr h) = inl h

  Tieless-perm : {xs ys : List A} → Permᴰ xs ys → Tieless before xs → Tieless before ys
  Tieless-perm Permᴰ.nil h = h
  Tieless-perm (Permᴰ.cons {l₂ = l₂} e p) h =
      (subst (λ z. All (Apart before z) l₂) e (All-perm (Apart before _) p h.0), Tieless-perm p h.1)
  Tieless-perm (Permᴰ.swap {a} {b} {a'} {b'} {l} e e') h = (
    (
      subst₂ (λ u v. Apart before u v) e' e (Apart-symm a b h.0.0),
      subst (λ z. All (Apart before z) l) e' h.1.0,
    ),
    (subst (λ z. All (Apart before z) l) e h.0.1, h.1.1),
  )
  Tieless-perm (Permᴰ.trans p q) h = Tieless-perm q (Tieless-perm p h)

  -- Two arrangements of the same elements, none of which tie, are sorted alike.
  pub sort-perm :
      {xs ys : List A}
      → ((a b c : A) → before a b ≡ true → before b c ≡ true → before a c ≡ true)
      → Permᴰ xs ys
      → Tieless before xs
      → sort before xs ≡ sort before ys
  unfolding sort
  sort-perm lt_trans Permᴰ.nil h = refl
  sort-perm lt_trans (Permᴰ.cons e p) h = ap₂ (insert before) e (sort-perm lt_trans p h.1)
  sort-perm lt_trans (Permᴰ.swap {a} {b} {l = l} e e') h =
      insert-insert a b (sort before l) lt_trans h.0.0
      ∙ ap₂ (λ u v. insert before u (insert before v (sort before l))) e' e
  sort-perm lt_trans (Permᴰ.trans p q) h =
      sort-perm lt_trans p h ∙ sort-perm lt_trans q (Tieless-perm p h)
