-- ===== src/Admin/Requests.antt =====
-- controllers/admin.go: the deletion of an account, and the requests as steps of all stores.
use portfolio_dashboard.Prelude.{Bool, Option, none, some, String, nat_beq, nat_eq, if◌then◌else◌}
use portfolio_dashboard.Clock.{Time}
use portfolio_dashboard.Domain.{ObjectId}
use portfolio_dashboard.Access.{User}
use portfolio_dashboard.Exec.{Exec, World, pure, ◌>>=◌, ◌>>◌}
use portfolio_dashboard.Account.{Reply, answered, refused, Status}
use portfolio_dashboard.Account.Store.{delete_user, delete_by_user}
use portfolio_dashboard.Admin.{HexIds}
use portfolio_dashboard.Admin.Platform.{
  Platform, PlatformTables, within, delete_holdings_by_user, delete_transactions_by_user,
  delete_all_gold_by_user,
}
use portfolio_dashboard.Admin.Handlers.{
  Flag, as_admin, load_target_user, admin_list_users, admin_list_admins, admin_get_user,
  admin_reset_lockout, admin_hide_user, admin_reactivate_user, admin_promote_user,
  admin_demote_user, admin_set_user_region, set_user_flag,
}

-- A request to the admin routes that concern accounts.
pub data AdminRequest : Type 0 where
  to_list_users : Bool → AdminRequest
  to_list_admins : AdminRequest
  to_get to_reset_lockout to_hide to_reactivate to_delete : String → AdminRequest
  to_promote to_demote : String → AdminRequest
  to_move : String → String → AdminRequest
  to_switch : String → Flag → Bool → AdminRequest

-- `has_gold` is whether the gold store is configured.
module _ {F : Type 0} (p : Platform F) (ids : HexIds) (has_gold : Bool) where
  -- `AdminDeleteUser`, once the target is loaded and is not the caller: the data first, the account last.
  unfoldable pub delete_data : ObjectId → Exec (PlatformTables F p) (Unit {0})
  unfolding delete_all_gold_by_user delete_holdings_by_user delete_transactions_by_user
      delete_by_user
  delete_data uid =
      (if has_gold then delete_all_gold_by_user p (ids.hex uid) else pure tt)
      >> delete_holdings_by_user p uid
      >> delete_transactions_by_user p uid
      >> within p (delete_by_user p.accounts uid)

  unfoldable pub delete_target : User → User → Exec (PlatformTables F p) (Reply (Unit {0}))
  unfolding delete_data delete_user
  delete_target caller target =
      if nat_beq target.id caller.id
      then pure (refused Status.forbidden)
      else delete_data target.id
        >> within p (delete_user p.accounts target.id)
        >> pure (answered tt)

  -- `AdminDeleteUser`
  unfoldable pub admin_delete_user :
      Option User → String → Exec (PlatformTables F p) (Reply (Unit {0}))
  unfolding as_admin load_target_user delete_target
  admin_delete_user caller text = as_admin caller λ u. do
    found ← within p (load_target_user p.accounts ids u text)
    elim found [ none ↦ pure (refused Status.not_found) | some target ↦ delete_target u target ]

  unfoldable pub after_admin :
      Time → Option User → AdminRequest → World (PlatformTables F p) → World (PlatformTables F p)
  unfolding admin_list_users admin_list_admins admin_get_user admin_reset_lockout admin_hide_user
      admin_reactivate_user admin_delete_user admin_promote_user admin_demote_user
      admin_set_user_region set_user_flag
  after_admin now caller (AdminRequest.to_list_users include_hidden) w =
      (within p (admin_list_users p.accounts ids caller include_hidden) w).1
  after_admin now caller AdminRequest.to_list_admins w =
      (within p (admin_list_admins p.accounts ids caller) w).1
  after_admin now caller (AdminRequest.to_get text) w =
      (within p (admin_get_user p.accounts ids caller text) w).1
  after_admin now caller (AdminRequest.to_reset_lockout text) w =
      (within p (admin_reset_lockout p.accounts ids now caller text) w).1
  after_admin now caller (AdminRequest.to_hide text) w =
      (within p (admin_hide_user p.accounts ids now caller text) w).1
  after_admin now caller (AdminRequest.to_reactivate text) w =
      (within p (admin_reactivate_user p.accounts ids now caller text) w).1
  after_admin now caller (AdminRequest.to_delete text) w = (admin_delete_user caller text w).1
  after_admin now caller (AdminRequest.to_promote text) w =
      (within p (admin_promote_user p.accounts ids now caller text) w).1
  after_admin now caller (AdminRequest.to_demote text) w =
      (within p (admin_demote_user p.accounts ids now caller text) w).1
  after_admin now caller (AdminRequest.to_move text region) w =
      (within p (admin_set_user_region p.accounts ids now caller text region) w).1
  after_admin now caller (AdminRequest.to_switch text flag enabled) w =
      (within p (set_user_flag p.accounts ids now caller text flag enabled) w).1
