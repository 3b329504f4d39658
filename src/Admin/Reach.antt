-- ===== src/Admin/Reach.antt =====
-- controllers/admin.go: what every request keeps, given what the handlers keep for the accounts that the caller
-- reaches.
use mathlib.Core.Path.{subst}
use portfolio_dashboard.Prelude.{
  ◌≡◌, refl, sym, Bool, true, false, Option, none, some, String, if◌then◌else◌,
}
use portfolio_dashboard.Errors.{Result, ok, err}
use portfolio_dashboard.Clock.{Time}
use portfolio_dashboard.Access.{User, is_super_admin, is_admin}
use portfolio_dashboard.Access.Sessions.{Accounts, AccountTables}
use portfolio_dashboard.Exec.{World, Exec, pure, continue}
use portfolio_dashboard.Exec.Steps.{Steps, IsPreorder, Steps-bind, Steps-read, Steps-pure, Steps-if}
use portfolio_dashboard.Account.{Reply, answered, refused, Status}
use portfolio_dashboard.Account.Input.{valid_region}
use portfolio_dashboard.Account.Store.{list_users}
use portfolio_dashboard.Admin.{HexIds}
use portfolio_dashboard.Admin.Platform.{Platform, PlatformTables, within}
use portfolio_dashboard.Admin.Handlers.{
  Flag, as_admin, on_target, by_username, by_role, load_target_user, is_listed, admin_list_users,
  admin_list_admins, admin_get_user, admin_reset_lockout, admin_hide_user, admin_reactivate_user,
  admin_promote_user, admin_demote_user, admin_set_user_region, set_user_flag, reset_lockout,
  hide_user, reactivate_user, promote_user, demote_user, move_user, switch_flag,
}
use portfolio_dashboard.Admin.Requests.{AdminRequest, delete_target, admin_delete_user, after_admin}
use portfolio_dashboard.Admin.Target.{
  IsTarget, on_target-at, as_admin-at, as_super_admin-at, unless_own-at, load_target_user-stored,
  load_target_user-ok,
}

module _ {F : Type 0} (p : Platform F) (ids : HexIds) (has_gold : Bool) (now : Time)
    (R : AccountTables p.accounts → AccountTables p.accounts → Type 0) (order : IsPreorder R) where
  abbrev a : Accounts
  a = p.accounts

  -- The relation of the accounts, for all stores.
  abbrev pub Lifted : PlatformTables F p → PlatformTables F p → Type 0
  Lifted s t = R s.accounts t.accounts

  pub Lifted-IsPreorder : IsPreorder Lifted
  Lifted-IsPreorder = record {
    reflexive = λ s. order.reflexive s.accounts;
    transitive = λ r s t. order.transitive r.accounts s.accounts t.accounts;
  }

  pub within-Steps :
      {A : Type 0} (m : Exec (AccountTables a) A) → Steps R m → Steps Lifted (within p m)
  within-Steps m h = record {
    at = λ w. h.at (record { stored = w.stored.accounts; faults = w.faults });
  }

  -- The handlers keep the relation when the caller acts on this account.
  pub record Handled (caller u : User) : Type 0 where
    pub resets : Steps R (reset_lockout a ids now u)
    pub hides : Steps R (hide_user a ids now caller u)
    pub reactivates : Steps R (reactivate_user a ids now u)
    pub promotes : Steps R (promote_user a ids now u)
    pub demotes : Steps R (demote_user a ids now u)
    pub moves : (region : String) → Steps R (move_user a ids now region u)
    pub switches : (flag : Flag) (enabled : Bool) → Steps R (switch_flag a ids now flag enabled u)
    pub deletes : Steps Lifted (delete_target p ids has_gold caller u)

  abbrev deletion : User → Option User → Exec (PlatformTables F p) (Reply (Unit {0}))
  deletion caller found = elim found [
    | none ↦ pure (refused Status.not_found)
    | some target ↦ delete_target p ids has_gold caller target
  ]

  deletes_found :
      (caller : User) (r : Result (Option User)) (s : PlatformTables F p)
      (v : World (PlatformTables F p))
      → v.stored.accounts ≡ s.accounts
      → ((u : User) → r ≡ ok (some u) → Handled caller u)
      → Lifted s (continue r (deletion caller) v).1.stored
  deletes_found caller (ok none) s v same h =
      subst (R s.accounts) (sym same) (order.reflexive s.accounts)
  deletes_found caller (ok (some u)) s v same h =
      subst (λ t. R t (delete_target p ids has_gold caller u v).1.stored.accounts) same
        ((h u refl).deletes.at v)
  deletes_found caller (err e) s v same h =
      subst (R s.accounts) (sym same) (order.reflexive s.accounts)

  admin_delete_user-at :
      (caller : Option User) (text : String) (w : World (PlatformTables F p))
      → ((c u : User) → caller ≡ some c → IsTarget a ids c w.stored.accounts u → Handled c u)
      → Lifted w.stored (admin_delete_user p ids has_gold caller text w).1.stored
  unfolding admin_delete_user
  admin_delete_user-at caller text w h =
      as_admin-at Lifted Lifted-IsPreorder caller _ w (λ c is admin.
        let inner : World (AccountTables a) = record {
          stored = w.stored.accounts;
          faults = w.faults;
        } in
        let m = load_target_user a ids c text inner in
        deletes_found c m.0 w.stored
          (record { stored = record w.stored { accounts = m.1.stored }; faults = m.1.faults })
          (load_target_user-stored a ids c text inner)
          (λ u found. h c u is (load_target_user-ok a ids c text inner u found)))

  module _ (caller : Option User) (w : World (PlatformTables F p))
      (h : (c u : User)
        → caller ≡ some c
        → IsTarget a ids c w.stored.accounts u
        → Handled c u) where
    abbrev inner : World (AccountTables a)
    inner = record { stored = w.stored.accounts; faults = w.faults }

    -- One target of an admin.
    admin_acts :
        {A : Type 0} (text : String) (handler : User → User → Exec (AccountTables a) (Reply A))
        → ((c u : User) → Handled c u → Steps R (handler c u))
        → R inner.stored (as_admin caller (λ c. on_target a ids c text (handler c)) inner).1.stored
    admin_acts text handler k = as_admin-at R order caller _ inner (λ c is admin.
        on_target-at a ids R order c text (handler c) inner (λ u target. k c u (h c u is target)))

    super_admin_acts :
        {A : Type 0} (text : String) (handler : User → Exec (AccountTables a) (Reply A))
        → ((c u : User) → Handled c u → Steps R (handler u))
        → (c : User) → caller ≡ some c
        → R inner.stored (on_target a ids c text handler inner).1.stored
    super_admin_acts text handler k c is =
        on_target-at a ids R order c text handler inner (λ u target. k c u (h c u is target))

    moves_if :
        {A : Type 0} (b : Bool) (m : Exec (AccountTables a) (Reply A))
        → R inner.stored (m inner).1.stored
        → R inner.stored ((if b then m else pure (refused Status.bad_request)) inner).1.stored
    moves_if true m h = h
    moves_if false m h = order.reflexive inner.stored

    -- If the handlers keep the relation for the accounts that the caller reaches, so does every request.
    pub after_admin-at :
        (r : AdminRequest)
        → R w.stored.accounts (after_admin p ids has_gold now caller r w).stored.accounts
    unfolding after_admin admin_list_users admin_list_admins admin_get_user admin_reset_lockout
        admin_hide_user admin_reactivate_user admin_promote_user admin_demote_user
        admin_set_user_region set_user_flag list_users
    after_admin-at (AdminRequest.to_list_users include_hidden) =
        as_admin-at R order caller _ inner (λ c is admin.
          (Steps-bind R order (list_users a (is_listed a ids c include_hidden) by_username) _
              (Steps-read R order _) (λ users. Steps-pure R order (answered users))).at
            inner)
    after_admin-at AdminRequest.to_list_admins = as_admin-at R order caller _ inner (λ c is admin.
        (Steps-if R order (is_super_admin c) _ _
            (λ e.
              Steps-bind R order (list_users a is_admin by_role) _ (Steps-read R order _)
                (λ users. Steps-pure R order (answered users)))
            (λ e. Steps-pure R order (refused Status.forbidden))).at
          inner)
    after_admin-at (AdminRequest.to_get text) =
        admin_acts text (λ c u. pure (answered u)) (λ c u k. Steps-pure R order (answered u))
    after_admin-at (AdminRequest.to_reset_lockout text) =
        admin_acts text (λ c u. reset_lockout a ids now u) (λ c u k. k.resets)
    after_admin-at (AdminRequest.to_hide text) =
        admin_acts text (λ c u. hide_user a ids now c u) (λ c u k. k.hides)
    after_admin-at (AdminRequest.to_reactivate text) =
        admin_acts text (λ c u. reactivate_user a ids now u) (λ c u k. k.reactivates)
    after_admin-at (AdminRequest.to_delete text) = admin_delete_user-at caller text w h
    after_admin-at (AdminRequest.to_promote text) =
        as_super_admin-at R order caller _ inner (λ c is admin.
          unless_own-at a ids R order c text _ inner
            (super_admin_acts text (promote_user a ids now) (λ c u k. k.promotes) c is))
    after_admin-at (AdminRequest.to_demote text) =
        as_super_admin-at R order caller _ inner (λ c is admin.
          unless_own-at a ids R order c text _ inner
            (super_admin_acts text (demote_user a ids now) (λ c u k. k.demotes) c is))
    after_admin-at (AdminRequest.to_move text region) =
        as_super_admin-at R order caller _ inner (λ c is admin.
          unless_own-at a ids R order c text _ inner (
            moves_if (valid_region region) (on_target a ids c text (move_user a ids now region))
              (super_admin_acts text (move_user a ids now region) (λ c u k. k.moves region) c is)))
    after_admin-at (AdminRequest.to_switch text flag enabled) =
        as_super_admin-at R order caller _ inner (λ c is admin.
          super_admin_acts text (switch_flag a ids now flag enabled)
            (λ c u k. k.switches flag enabled) c is)
