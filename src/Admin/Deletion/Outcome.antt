-- ===== src/Admin/Deletion/Outcome.antt =====
-- controllers/admin.go: the deleted account is gone with its data in the stores that the
-- deletion reaches, or it is still there.
use mathlib.Core.Path.{subst}
use portfolio_dashboard.Prelude.{
  ◌≡◌, refl, sym, ◌∙◌, ap, ◌⊎◌, inl, inr, Bool, true, Option, none, some, String, nat_eq, nat_beq,
  string_eq, arith, Bool-cases, nat_beq_iff,
}
use portfolio_dashboard.Errors.{Result, ok, err}
use portfolio_dashboard.Domain.{ObjectId}
use portfolio_dashboard.Access.{User, is_admin}
use portfolio_dashboard.Access.Sessions.{Accounts, AccountTables}
use portfolio_dashboard.Exec.{World, Exec, pure, continue, ◌>>◌}
use portfolio_dashboard.Exec.Success.{bind-cases, call-cases}
use portfolio_dashboard.Account.{answered}
use portfolio_dashboard.Account.Store.{delete_user}
use portfolio_dashboard.Account.Directory.{IsDirectory}
use portfolio_dashboard.Admin.{HexIds}
use portfolio_dashboard.Admin.Platform.{Platform, PlatformTables, within}
use portfolio_dashboard.Admin.Handlers.{as_admin, in_scope, load_target_user}
use portfolio_dashboard.Admin.Requests.{delete_data, delete_target, admin_delete_user}
use portfolio_dashboard.Admin.Target.{load_target_user-stored, load_target_user-named}
use portfolio_dashboard.Admin.Scope.{
  delete_data-Steps, Handled-other, Untouched, Untouched-IsPreorder, update_user-Untouched,
  delete_user-Untouched, drop_sessions-Untouched,
}
use portfolio_dashboard.Admin.Deletion.{
  IsForgotten, forgotten, delete_data-ok, without_user, deletion,
}

module _ {F : Type 0} (p : Platform F) (ids : HexIds) (has_gold : Bool) where
  abbrev a : Accounts
  a = p.accounts

  -- An answer after an action changes nothing.
  after_pure :
      {A : Type 0} (P : PlatformTables F p → Type 0) (m : Exec (PlatformTables F p) (Unit {0}))
      (r : A) (w : World (PlatformTables F p))
      → P (m w).1.stored
      → P ((m >> pure r) w).1.stored
  after_pure P m r w h = elim (bind-cases m (λ x. pure r) w) [
    | inl (x, done, e) ↦ subst (λ z. P z.1.stored) (sym e) h
    | inr e ↦ subst (λ v. P v.stored) (sym e) h
  ]

  -- The account k is as it was, or it is the one that the text names and is gone with all that the deletion
  -- reaches.
  abbrev pub Outcome : String → ObjectId → User → PlatformTables F p → Type 0
  Outcome text k u t =
      (a.users.find k t.accounts.users ≡ some u)
      ⊎ ((ids.from_hex text ≡ some k)
          × (a.users.find k t.accounts.users ≡ none)
          × IsForgotten p ids has_gold u.id t)

  delete_user-Outcome :
      (text : String) (k : ObjectId) (u : User) (w : World (PlatformTables F p))
      → ids.from_hex text ≡ some k
      → u.id ≡ k
      → a.users.find k w.stored.accounts.users ≡ some u
      → IsForgotten p ids has_gold u.id w.stored
      → Outcome text k u (within p (delete_user a u.id) w).1.stored
  unfolding delete_user
  delete_user-Outcome text k u w named same stored gone =
      let inner : World (AccountTables a) = record {
        stored = w.stored.accounts;
        faults = w.faults;
      } in
      elim (call-cases (λ t. (ok tt, without_user p ids has_gold u.id t)) inner) [
        | inl kept ↦ inl (ap (λ t. a.users.find k t.users) kept ∙ stored)
        | inr removed ↦
            let absent : a.users.find k (without_user p ids has_gold u.id w.stored.accounts).users
                ≡ none =
              ground (arith, a.users.find-remove u.id k w.stored.accounts.users) in
            inr (
              named,
              ap (λ t. a.users.find k t.users) removed ∙ absent,
              record {
                no_holding = gone.no_holding;
                no_transaction = gone.no_transaction;
                no_session = λ j x h.
                    gone.no_session j x (ap (λ t. a.sessions.find j t.sessions) (sym removed) ∙ h);
                no_gold = gone.no_gold;
                no_gold_price = gone.no_gold_price;
              },
            )
      ]

  module _ (k : ObjectId) (u : User) (text : String) where
    delete_data-Untouched :
        (uid : ObjectId) (w : World (PlatformTables F p))
        → a.users.find k w.stored.accounts.users ≡ some u
        → a.users.find k (delete_data p ids has_gold uid w).1.stored.accounts.users ≡ some u
    delete_data-Untouched uid w stored =
        (delete_data-Steps p ids has_gold 0 (Untouched p ids has_gold 0 k u)
            (Untouched-IsPreorder p ids has_gold 0 k u) uid
            (drop_sessions-Untouched p ids has_gold 0 k u)).at
          w stored

    abbrev removal : ObjectId → Exec (PlatformTables F p) (Unit {0})
    removal uid = delete_data p ids has_gold uid >> within p (delete_user a uid)

    removal-Outcome :
        (w : World (PlatformTables F p))
        → ids.from_hex text ≡ some k
        → u.id ≡ k
        → a.users.find k w.stored.accounts.users ≡ some u
        → Outcome text k u (removal u.id w).1.stored
    removal-Outcome w named same stored =
        let m = delete_data p ids has_gold u.id in
        let kept = delete_data-Untouched u.id w stored in
        elim (bind-cases m (λ x. within p (delete_user a u.id)) w) [
          | inl (x, done, e) ↦
              let gone =
                subst (IsForgotten p ids has_gold u.id)
                  (sym (delete_data-ok p ids has_gold u.id w done))
                  (forgotten p ids has_gold u.id w.stored) in
              subst (λ r. Outcome text k u r.1.stored) (sym e)
                (delete_user-Outcome text k u (m w).1 named same kept gone)
          | inr e ↦ subst (λ v. Outcome text k u v.stored) (sym e) (inl kept)
        ]

    delete_target-Outcome :
        (c target : User) (w : World (PlatformTables F p))
        → a.users.find k w.stored.accounts.users ≡ some u
        → (nat_beq target.id k ≡ true → (target ≡ u) × (ids.from_hex text ≡ some k))
        → Outcome text k u (delete_target p ids has_gold c target w).1.stored
    unfolding delete_target
    delete_target-Outcome c target w stored is = elim (Bool-cases (nat_beq target.id k)) [
      | inr other ↦ inl (
          (Handled-other p ids has_gold 0 (Untouched p ids has_gold 0 k u)
              (Untouched-IsPreorder p ids has_gold 0 k u) k
              (update_user-Untouched p ids has_gold 0 k u)
              (delete_user-Untouched p ids has_gold 0 k u)
              (drop_sessions-Untouched p ids has_gold 0 k u) c target other).deletes.at
            w stored)
      | inl same ↦
          let (e, named) = is same in
          let at_k : u.id ≡ k = ap (λ x. x.id) (sym e) ∙ (nat_beq_iff target.id k).0 same in
          subst (λ x. Outcome text k u (delete_target p ids has_gold c x w).1.stored) (sym e)
            (elim (Bool-cases (nat_beq u.id c.id)) [
              | inl own ↦ rw (delete_target, own) (inl stored)
              | inr foreign ↦
                  rw (delete_target, foreign)
                    (after_pure (Outcome text k u) (removal u.id) (answered tt) w
                      (removal-Outcome w named at_k stored))
            ])
    ]

    target_is_stored :
        (c target : User) (t : AccountTables a)
        → IsDirectory a t
        → a.users.find k t.users ≡ some u
        → (id : ObjectId) × (ids.from_hex text ≡ some id)
          × (a.users.find id t.users ≡ some target)
          × (in_scope c target ≡ true)
        → nat_beq target.id k ≡ true
        → (target ≡ u) × (ids.from_hex text ≡ some k)
    target_is_stored c target t d stored (id, read, found, reached) same =
        let at_k : id ≡ k = sym (d.keyed id target found) ∙ (nat_beq_iff target.id k).0 same in
        let e = sym (subst (λ i. a.users.find i t.users ≡ some target) at_k found) ∙ stored in
        (ap (λ o. elim o [ none ↦ u | some x ↦ x ]) e, read ∙ ap some at_k)

    deletes_found :
        (c : User) (r : Result (Option User)) (v : World (PlatformTables F p))
        → a.users.find k v.stored.accounts.users ≡ some u
        → ((target : User)
            → r ≡ ok (some target)
            → nat_beq target.id k ≡ true
            → (target ≡ u) × (ids.from_hex text ≡ some k))
        → Outcome text k u (continue r (deletion p ids has_gold c) v).1.stored
    deletes_found c (ok none) v stored h = inl stored
    deletes_found c (ok (some target)) v stored h =
        delete_target-Outcome c target v stored (h target refl)
    deletes_found c (err e) v stored h = inl stored

    -- After a request of an admin to delete an account, every stored account is as it was, or it is the one
    -- whose id the request names and is gone, and then no holding, transaction, session or, with a gold store,
    -- gold row is left of it, whichever calls of the databases fail. Users are stored under their own ids and
    -- different names.
    pub admin_delete_user-Outcome :
        (c : User) (w : World (PlatformTables F p))
        → IsDirectory a w.stored.accounts
        → a.users.find k w.stored.accounts.users ≡ some u
        → Outcome text k u (admin_delete_user p ids has_gold (some c) text w).1.stored
    unfolding admin_delete_user as_admin
    admin_delete_user-Outcome c w d stored = elim (Bool-cases (is_admin c)) [
      | inr other ↦ rw (as_admin, other) (inl stored)
      | inl admin ↦
          let inner : World (AccountTables a) = record {
            stored = w.stored.accounts;
            faults = w.faults;
          } in
          let m = load_target_user a ids c text inner in
          rw (as_admin, admin)
            (deletes_found c m.0
              (record { stored = record w.stored { accounts = m.1.stored }; faults = m.1.faults })
              (ap (λ t. a.users.find k t.users) (load_target_user-stored a ids c text inner)
                ∙ stored)
              (λ target found same.
                target_is_stored c target w.stored.accounts d stored
                  (load_target_user-named a ids c text inner target found) same))
    ]
