-- ===== src/Admin/Handlers.antt =====
-- controllers/admin.go: the handlers. `caller` is the user of the request's session.
use portfolio_dashboard.Prelude.{
  Bool, true, false, not, ◌&&◌, ◌||◌, Option, none, some, List, String, ◌==◌, string_eq, nat_eq,
  string_ltb, nat_beq, if◌then◌else◌,
}
use portfolio_dashboard.Clock.{Time}
use portfolio_dashboard.Errors.{is_not_found, Result, ok, err}
use portfolio_dashboard.Access.{Role, User, is_admin, is_super_admin, is_plain_user}
use portfolio_dashboard.Access.Sessions.{Accounts, AccountTables, find_user}
use portfolio_dashboard.Exec.{Exec, pure, raise, attempt, ◌>>=◌, ◌>>◌}
use portfolio_dashboard.Account.{Reply, answered, refused, Status}
use portfolio_dashboard.Account.Input.{valid_region}
use portfolio_dashboard.Account.Store.{update_user, list_users}
use portfolio_dashboard.Account.Entry.{invalidate_all_sessions}
use portfolio_dashboard.Admin.{HexIds}

-- The rows that an admin reaches; the super admin reaches all.
unfoldable pub in_scope : User → User → Bool
in_scope caller target =
    is_super_admin caller || (is_plain_user target && target.region == caller.region)

-- The switches of `setUserFlag`.
pub data Flag : Type 0 where
  gold premium delta_from_history : Flag

abbrev pub with_flag : Time → Flag → Bool → User → User
with_flag now Flag.gold enabled u = record u { gold_enabled = enabled; updated_at = now }
with_flag now Flag.premium enabled u = record u { premium = enabled; updated_at = now }
with_flag now Flag.delta_from_history enabled u = record u {
  delta_from_history = enabled;
  updated_at = now;
}

abbrev pub without_lockout : Time → User → User
without_lockout now u = record u {
  locked = false;
  security_question_failures = 0;
  updated_at = now;
}

abbrev pub with_disabled : Time → Bool → User → User
with_disabled now disabled u = record u { disabled = disabled; updated_at = now }

abbrev pub with_role : Time → Role → User → User
with_role now role u = record u { role = role; updated_at = now }

abbrev pub with_region : Time → String → User → User
with_region now region u = record u { region = region; updated_at = now }

abbrev pub is_plain_admin : User → Bool
is_plain_admin u = elim u.role [ Role.admin ↦ true | _ ↦ false ]

-- The order of the listed users.
abbrev pub by_username : User → User → Bool
by_username u v = string_ltb u.username v.username

-- The order of the listed admins: the text "admin" comes before "super_admin".
abbrev pub by_role : User → User → Bool
by_role u v =
    if is_super_admin u
    then is_super_admin v && by_username u v
    else is_super_admin v || by_username u v

-- `adminCaller`
unfoldable pub as_admin :
    {S A : Type 0} → Option User → (User → Exec S (Reply A)) → Exec S (Reply A)
as_admin caller handler = elim caller [
  | none ↦ pure (refused Status.unauthorized)
  | some u ↦ if is_admin u then handler u else pure (refused Status.forbidden)
]

-- `superAdminCaller`, and the answer if there is none.
unfoldable pub as_super_admin :
    {S A : Type 0} → Option User → (User → Exec S (Reply A)) → Exec S (Reply A)
as_super_admin caller handler = elim caller [
  | none ↦ pure (refused Status.forbidden)
  | some u ↦ if is_super_admin u then handler u else pure (refused Status.forbidden)
]

module _ (a : Accounts) (ids : HexIds) where
  unfoldable pub scoped : User → Result User → Exec (AccountTables a) (Option User)
  unfolding in_scope
  scoped caller (ok target) = pure (if in_scope caller target then some target else none)
  scoped caller (err e) = if is_not_found e then pure none else raise e

  -- `loadTargetUser`
  unfoldable pub load_target_user : User → String → Exec (AccountTables a) (Option User)
  unfolding find_user scoped
  load_target_user caller text = elim (ids.from_hex text) [
    | none ↦ pure none
    | some id ↦ attempt (find_user a id) >>= scoped caller
  ]

  -- What a handler does with the target that it has loaded.
  unfoldable pub on_target :
      {A : Type 0}
      → User
      → String
      → (User → Exec (AccountTables a) (Reply A))
      → Exec (AccountTables a) (Reply A)
  unfolding load_target_user
  on_target caller text handler = do
    target ← load_target_user caller text
    elim target [ none ↦ pure (refused Status.not_found) | some u ↦ handler u ]

  -- The filter of `AdminListUsers`
  unfoldable pub is_listed : User → Bool → User → Bool
  is_listed caller include_hidden u =
      (is_super_admin caller || (u.region == caller.region && is_plain_user u))
      && (include_hidden || not u.disabled)

  -- `AdminListUsers`
  unfoldable pub admin_list_users : Option User → Bool → Exec (AccountTables a) (Reply (List User))
  unfolding as_admin is_listed list_users
  admin_list_users caller include_hidden =
      as_admin caller
        λ u. do users ← list_users a (is_listed u include_hidden) by_username; pure (answered users)

  -- `AdminListAdmins`
  unfoldable pub admin_list_admins : Option User → Exec (AccountTables a) (Reply (List User))
  unfolding as_admin list_users
  admin_list_admins caller = as_admin caller λ u.
      if is_super_admin u
      then (do users ← list_users a is_admin by_role; pure (answered users))
      else pure (refused Status.forbidden)

  -- `AdminGetUser`
  unfoldable pub admin_get_user : Option User → String → Exec (AccountTables a) (Reply User)
  unfolding as_admin on_target
  admin_get_user caller text =
      as_admin caller λ u. on_target u text λ target. pure (answered target)

  unfoldable pub reset_lockout : Time → User → Exec (AccountTables a) (Reply (Unit {0}))
  reset_lockout now target = update_user a target.id (without_lockout now) >> pure (answered tt)

  -- `AdminResetLockout`
  unfoldable pub admin_reset_lockout :
      Time → Option User → String → Exec (AccountTables a) (Reply (Unit {0}))
  unfolding as_admin on_target reset_lockout
  admin_reset_lockout now caller text = as_admin caller λ u. on_target u text (reset_lockout now)

  unfoldable pub hide_user : Time → User → User → Exec (AccountTables a) (Reply (Unit {0}))
  hide_user now caller target =
      if nat_beq target.id caller.id
      then pure (refused Status.forbidden)
      else update_user a target.id (with_disabled now true)
        >> invalidate_all_sessions a target.id
        >> pure (answered tt)

  -- `AdminHideUser`
  unfoldable pub admin_hide_user :
      Time → Option User → String → Exec (AccountTables a) (Reply (Unit {0}))
  unfolding as_admin on_target hide_user
  admin_hide_user now caller text = as_admin caller λ u. on_target u text (hide_user now u)

  unfoldable pub reactivate_user : Time → User → Exec (AccountTables a) (Reply (Unit {0}))
  reactivate_user now target =
      update_user a target.id (with_disabled now false) >> pure (answered tt)

  -- `AdminReactivateUser`
  unfoldable pub admin_reactivate_user :
      Time → Option User → String → Exec (AccountTables a) (Reply (Unit {0}))
  unfolding as_admin on_target reactivate_user
  admin_reactivate_user now caller text =
      as_admin caller λ u. on_target u text (reactivate_user now)

  unfoldable pub promote_user : Time → User → Exec (AccountTables a) (Reply User)
  promote_user now target =
      if is_plain_user target
      then update_user a target.id (with_role now Role.admin)
        >> pure (answered (record target { role = Role.admin }))
      else pure (refused Status.bad_request)

  unfoldable pub demote_user : Time → User → Exec (AccountTables a) (Reply User)
  demote_user now target =
      if is_plain_admin target
      then update_user a target.id (with_role now Role.user)
        >> pure (answered (record target { role = Role.user }))
      else pure (refused Status.bad_request)

  -- The guard on the caller's own account compares texts.
  unfoldable pub unless_own :
      {A : Type 0}
      → User
      → String
      → Exec (AccountTables a) (Reply A)
      → Exec (AccountTables a) (Reply A)
  unless_own caller text handler =
      if text == ids.hex caller.id then pure (refused Status.forbidden) else handler

  -- `AdminPromoteUser`
  unfoldable pub admin_promote_user :
      Time → Option User → String → Exec (AccountTables a) (Reply User)
  unfolding as_super_admin unless_own on_target promote_user
  admin_promote_user now caller text =
      as_super_admin caller λ u. unless_own u text (on_target u text (promote_user now))

  -- `AdminDemoteUser`
  unfoldable pub admin_demote_user :
      Time → Option User → String → Exec (AccountTables a) (Reply User)
  unfolding as_super_admin unless_own on_target demote_user
  admin_demote_user now caller text =
      as_super_admin caller λ u. unless_own u text (on_target u text (demote_user now))

  unfoldable pub move_user : Time → String → User → Exec (AccountTables a) (Reply User)
  move_user now region target =
      update_user a target.id (with_region now region)
      >> pure (answered (record target { region = region }))

  -- `AdminSetUserRegion`
  unfoldable pub admin_set_user_region :
      Time → Option User → String → String → Exec (AccountTables a) (Reply User)
  unfolding as_super_admin unless_own on_target move_user valid_region
  admin_set_user_region now caller text region = as_super_admin caller λ u. unless_own u text (
      if valid_region region
      then on_target u text (move_user now region)
      else pure (refused Status.bad_request))

  unfoldable pub switch_flag : Time → Flag → Bool → User → Exec (AccountTables a) (Reply (Unit {0}))
  switch_flag now flag enabled target =
      update_user a target.id (with_flag now flag enabled) >> pure (answered tt)

  -- `setUserFlag`, and so `AdminSetUserGold`, `AdminSetUserPremium` and `AdminSetUserDeltaFromHistory`.
  unfoldable pub set_user_flag :
      Time → Option User → String → Flag → Bool → Exec (AccountTables a) (Reply (Unit {0}))
  unfolding as_super_admin on_target switch_flag
  set_user_flag now caller text flag enabled =
      as_super_admin caller λ u. on_target u text (switch_flag now flag enabled)
