-- ===== src/Admin/Target.antt =====
-- controllers/admin.go: a handler acts on the account that its request names, if the caller may reach it.
use mathlib.Core.Path.{subst}
use portfolio_dashboard.Prelude.{
  ◌≡◌, refl, sym, ◌∙◌, ap, inl, inr, true, Option, none, some, String, nat_eq, string_eq, ◌==◌,
  arith, Option-cases, Bool-cases,
}
use portfolio_dashboard.Errors.{Result, ok, err, is_not_found, not_found}
use portfolio_dashboard.Domain.{ObjectId}
use portfolio_dashboard.Access.{User, is_admin, is_super_admin}
use portfolio_dashboard.Access.Sessions.{Accounts, AccountTables, find_user}
use portfolio_dashboard.Exec.{World, Exec, pure, raise, gets, continue}
use portfolio_dashboard.Exec.Steps.{
  Steps, IsPreorder, Steps-bind, Steps-read, Steps-option, Steps-raise, Steps-pure,
}
use portfolio_dashboard.Exec.Success.{gets-ok}
use portfolio_dashboard.Account.{Reply, refused, Status}
use portfolio_dashboard.Admin.{HexIds}
use portfolio_dashboard.Admin.Handlers.{
  in_scope, as_admin, as_super_admin, scoped, load_target_user, on_target, unless_own,
}

module _ {S : Type 0} (R : S → S → Type 0) (order : IsPreorder R) where
  pub as_admin-at :
      {A : Type 0} (caller : Option User) (handler : User → Exec S (Reply A)) (w : World S)
      → ((u : User) → caller ≡ some u → is_admin u ≡ true → R w.stored (handler u w).1.stored)
      → R w.stored (as_admin caller handler w).1.stored
  unfolding as_admin
  as_admin-at none handler w h = order.reflexive w.stored
  as_admin-at (some u) handler w h = elim (Bool-cases (is_admin u)) [
    | inl admin ↦ rw (as_admin, admin) (h u refl admin)
    | inr other ↦ rw (as_admin, other) (order.reflexive w.stored)
  ]

  pub as_super_admin-at :
      {A : Type 0} (caller : Option User) (handler : User → Exec S (Reply A)) (w : World S)
      → ((u : User) → caller ≡ some u → is_super_admin u ≡ true → R w.stored (handler u w).1.stored)
      → R w.stored (as_super_admin caller handler w).1.stored
  unfolding as_super_admin
  as_super_admin-at none handler w h = order.reflexive w.stored
  as_super_admin-at (some u) handler w h = elim (Bool-cases (is_super_admin u)) [
    | inl admin ↦ rw (as_super_admin, admin) (h u refl admin)
    | inr other ↦ rw (as_super_admin, other) (order.reflexive w.stored)
  ]

module _ (a : Accounts) where
  abbrev Same : AccountTables a → AccountTables a → Type 0
  Same s t = t ≡ s

  Same-IsPreorder : IsPreorder Same
  Same-IsPreorder = record { reflexive = λ s. refl; transitive = λ r s t f g. g ∙ f }

  abbrev looked_up : Option User → Exec (AccountTables a) User
  looked_up found = elim found [ none ↦ raise not_found | some u ↦ pure u ]

  pub find_user-stored :
      (id : ObjectId) (w : World (AccountTables a)) → (find_user a id w).1.stored ≡ w.stored
  unfolding find_user
  find_user-stored id w =
      (Steps-bind Same Same-IsPreorder (gets (λ t. a.users.find id t.users)) looked_up
          (Steps-read Same Same-IsPreorder _)
          (λ found.
            Steps-option Same Same-IsPreorder found _ _ (Steps-raise Same Same-IsPreorder not_found)
              (λ u. Steps-pure Same Same-IsPreorder u))).at
        w

  find_user-ok :
      (id : ObjectId) (w : World (AccountTables a)) (u : User)
      → (find_user a id w).0 ≡ ok u
      → a.users.find id w.stored.users ≡ some u
  unfolding find_user
  find_user-ok id w u h =
      let (x, same, e) = gets-ok (λ t. a.users.find id t.users) looked_up w u h in
      elim (Option-cases (a.users.find id w.stored.users)) [
        | inl absent ↦
            let missing : (find_user a id w).0 ≡ err not_found = ap (λ z. z.0) e ∙ rw absent refl in
            absurd (ground arith)
        | inr (v, found) ↦
            let same : (find_user a id w).0 ≡ ok v = ap (λ z. z.0) e ∙ rw found refl in ground arith
      ]

module _ (a : Accounts) (ids : HexIds) where
  -- The caller reaches the stored account.
  abbrev pub IsTarget : User → AccountTables a → User → Type 0
  IsTarget caller t u =
      (id : ObjectId) × (a.users.find id t.users ≡ some u) × (in_scope caller u ≡ true)

  scoped-stored :
      (caller : User) (r : Result User) (w : World (AccountTables a))
      → (scoped a ids caller r w).1.stored ≡ w.stored
  unfolding scoped
  scoped-stored caller (ok target) w = refl
  scoped-stored caller (err e) w = elim (Bool-cases (is_not_found e)) [
    | inl absent ↦ rw (scoped, absent) refl
    | inr other ↦ rw (scoped, other) refl
  ]

  scoped-ok :
      (caller : User) (r : Result User) (w : World (AccountTables a)) (u : User)
      → (scoped a ids caller r w).0 ≡ ok (some u)
      → (r ≡ ok u) × (in_scope caller u ≡ true)
  unfolding scoped
  scoped-ok caller (ok target) w u h = elim (Bool-cases (in_scope caller target)) [
    | inl reached ↦
        let e : (scoped a ids caller (ok target) w).0 ≡ ok (some target) =
          rw (scoped, reached) refl in
        let same : target ≡ u = ground arith in
        (ap ok same, subst (λ v. in_scope caller v ≡ true) same reached)
    | inr out ↦ absurd (ground arith)
  ]
  scoped-ok caller (err e) w u h = absurd (ground arith)

  pub load_target_user-stored :
      (caller : User) (text : String) (w : World (AccountTables a))
      → (load_target_user a ids caller text w).1.stored ≡ w.stored
  unfolding load_target_user
  load_target_user-stored caller text w = elim (Option-cases (ids.from_hex text)) [
    | inl malformed ↦ rw (load_target_user, malformed) refl
    | inr (id, read) ↦
        rw (load_target_user, read)
          (scoped-stored caller (find_user a id w).0 (find_user a id w).1 ∙ find_user-stored a id w)
  ]

  -- The account is the one whose id the text names, and the caller reaches it.
  pub load_target_user-named :
      (caller : User) (text : String) (w : World (AccountTables a)) (u : User)
      → (load_target_user a ids caller text w).0 ≡ ok (some u)
      → (id : ObjectId) × (ids.from_hex text ≡ some id)
        × (a.users.find id w.stored.users ≡ some u)
        × (in_scope caller u ≡ true)
  unfolding load_target_user
  load_target_user-named caller text w u h = elim (Option-cases (ids.from_hex text)) [
    | inl malformed ↦ absurd (ground arith)
    | inr (id, read) ↦
        let e : load_target_user a ids caller text w
            ≡ scoped a ids caller (find_user a id w).0 (find_user a id w).1 =
          rw (load_target_user, read) refl in
        let (found, reached) =
          scoped-ok caller (find_user a id w).0 (find_user a id w).1 u
            (sym (ap (λ z. z.0) e) ∙ h) in
        (id, read, find_user-ok a id w u found, reached)
  ]

  pub load_target_user-ok :
      (caller : User) (text : String) (w : World (AccountTables a)) (u : User)
      → (load_target_user a ids caller text w).0 ≡ ok (some u)
      → IsTarget caller w.stored u
  load_target_user-ok caller text w u h =
      let (id, read, found, reached) = load_target_user-named caller text w u h in
      (id, found, reached)

  abbrev pub acted :
      {A : Type 0}
      → (User → Exec (AccountTables a) (Reply A))
      → Option User
      → Exec (AccountTables a) (Reply A)
  acted handler target = elim target [ none ↦ pure (refused Status.not_found) | some u ↦ handler u ]

  module _ (R : AccountTables a → AccountTables a → Type 0) (order : IsPreorder R) where
    stays : (s t : AccountTables a) → t ≡ s → R s t
    stays s t e = subst (R s) (sym e) (order.reflexive s)

    acts :
        {A : Type 0} (handler : User → Exec (AccountTables a) (Reply A)) (r : Result (Option User))
        (s : AccountTables a) (v : World (AccountTables a))
        → v.stored ≡ s
        → ((u : User) → r ≡ ok (some u) → Steps R (handler u))
        → R s (continue r (acted handler) v).1.stored
    acts handler (ok none) s v same h = stays s v.stored same
    acts handler (ok (some u)) s v same h =
        subst (λ t. R t (handler u v).1.stored) same ((h u refl).at v)
    acts handler (err e) s v same h = stays s v.stored same

    -- If the handler keeps the relation for every account that the caller reaches, then so does the request.
    pub on_target-at :
        {A : Type 0} (caller : User) (text : String)
        (handler : User → Exec (AccountTables a) (Reply A)) (w : World (AccountTables a))
        → ((u : User) → IsTarget caller w.stored u → Steps R (handler u))
        → R w.stored (on_target a ids caller text handler w).1.stored
    unfolding on_target
    on_target-at caller text handler w h =
        let m = load_target_user a ids caller text w in
        acts handler m.0 w.stored m.1 (load_target_user-stored caller text w)
          (λ u found. h u (load_target_user-ok caller text w u found))

    pub unless_own-at :
        {A : Type 0} (caller : User) (text : String) (handler : Exec (AccountTables a) (Reply A))
        (w : World (AccountTables a))
        → R w.stored (handler w).1.stored
        → R w.stored (unless_own a ids caller text handler w).1.stored
    unfolding unless_own
    unless_own-at caller text handler w h = elim (Bool-cases (text == ids.hex caller.id)) [
      | inl own ↦ rw (unless_own, own) (order.reflexive w.stored)
      | inr other ↦ rw (unless_own, other) h
    ]
