-- ===== src/Account/Store.antt =====
-- persistence/users.go, and the operations of persistence/sessions.go that write sessions.
use portfolio_dashboard.Prelude.{
  ◌+◌, Bool, not, ◌&&◌, ◌||◌, Option, none, some, List, String, ◌==◌, string_eq, nat_eq, nat_beq,
  is_none, if◌then◌else◌,
}
use portfolio_dashboard.Prelude.Sort.{sort}
use portfolio_dashboard.Errors.{database, duplicate, not_found, Result, ok, err}
use portfolio_dashboard.Domain.{ObjectId}
use portfolio_dashboard.Access.{User, Session}
use portfolio_dashboard.Access.Sessions.{Accounts, AccountTables}
use portfolio_dashboard.Exec.{Exec, raise, call, gets, modify}
use portfolio_dashboard.Account.{Credentials}
use portfolio_dashboard.Account.Input.{normalize_username}

abbrev pub one_more_login_failure : User → User
one_more_login_failure u = record u { login_failures = u.login_failures + 1 }

abbrev pub one_more_recovery_failure : Bool → User → User
one_more_recovery_failure lock u = record u {
  security_question_failures = u.security_question_failures + 1;
  locked = lock || u.locked;
}

module _ (a : Accounts) where
  -- A user with the username, but not with the id.
  abbrev pub taken_by : String → ObjectId → User → Bool
  taken_by username id u = u.username == username && not (nat_beq u.id id)

  abbrev pub put_user : ObjectId → User → AccountTables a → AccountTables a
  put_user id u t = record t { users = a.users.put id u t.users }

  -- InsertOne under the unique indexes of the id and the username (the latter is declared in
  -- backend/internal/db/mongo.go).
  unfoldable pub inserted : User → AccountTables a → Result (Unit {0}) × AccountTables a
  inserted u t =
      if is_none (a.users.find u.id t.users)
        && is_none (a.users.find_one (λ v. v.username == u.username) t.users)
      then (ok tt, put_user u.id u t)
      else (err duplicate, t)

  -- `Insert`
  unfoldable pub insert_user : User → Exec (AccountTables a) (Unit {0})
  insert_user u = call (inserted u)

  -- UpdateOne by the id: no error if there is no such user, and the unique index refuses a new username
  -- that another user has.
  unfoldable pub patched_user :
      ObjectId → (User → User) → AccountTables a → Result (Unit {0}) × AccountTables a
  patched_user id patch t = elim (a.users.find id t.users) [
    | none ↦ (ok tt, t)
    | some u ↦
        if ((patch u).username == u.username)
          || is_none (a.users.find_one (taken_by (patch u).username id) t.users)
        then (ok tt, put_user id (patch u) t)
        else (err duplicate, t)
  ]

  -- `Update`
  unfoldable pub update_user : ObjectId → (User → User) → Exec (AccountTables a) (Unit {0})
  update_user id patch = call (patched_user id patch)

  -- `IncLoginFailures`
  unfoldable pub inc_login_failures : ObjectId → Exec (AccountTables a) (Unit {0})
  unfolding update_user
  inc_login_failures id = update_user id one_more_login_failure

  -- `RegisterRecoveryFailure`
  unfoldable pub register_recovery_failure : ObjectId → Bool → Exec (AccountTables a) (Unit {0})
  unfolding update_user
  register_recovery_failure id lock = update_user id (one_more_recovery_failure lock)

  -- `List`
  unfoldable pub list_users :
      (User → Bool) → (User → User → Bool) → Exec (AccountTables a) (List User)
  unfolding sort
  list_users filter before = gets (λ t. sort before (a.users.query filter t.users))

  -- `Delete`
  unfoldable pub delete_user : ObjectId → Exec (AccountTables a) (Unit {0})
  delete_user id = modify (λ t. record t { users = a.users.remove id t.users })

  -- `FindByUsername`
  unfoldable pub find_by_username : Credentials → String → Exec (AccountTables a) (Option User)
  unfolding normalize_username
  find_by_username c username =
      gets (λ t. a.users.find_one (λ u. u.username == normalize_username c username) t.users)

  abbrev pub put_session : Session → AccountTables a → AccountTables a
  put_session s t = record t { sessions = a.sessions.put s.id s t.sessions }

  -- `Insert` of persistence/sessions.go: the id is the unique key.
  unfoldable pub inserted_session : Session → AccountTables a → Result (Unit {0}) × AccountTables a
  inserted_session s t =
      if is_none (a.sessions.find s.id t.sessions)
      then (ok tt, put_session s t)
      else (err database, t)

  unfoldable pub insert_session : Session → Exec (AccountTables a) (Unit {0})
  unfolding inserted_session
  insert_session s = call (inserted_session s)

  abbrev pub drop_sessions : (Session → Bool) → AccountTables a → AccountTables a
  drop_sessions p t = record t { sessions = a.sessions.remove_all p t.sessions }

  -- `DeleteByUser`
  unfoldable pub delete_by_user : ObjectId → Exec (AccountTables a) (Unit {0})
  delete_by_user uid = modify (drop_sessions (λ s. nat_beq s.user_id uid))

  -- `DeleteOthers`
  unfoldable pub delete_others :
      (String → Bool) → ObjectId → String → Exec (AccountTables a) (Unit {0})
  unfolding delete_by_user
  delete_others is_session_id uid keep_id =
      if keep_id == ""
      then delete_by_user uid
      else if is_session_id keep_id
      then modify (drop_sessions (λ s. nat_beq s.user_id uid && not (s.id == keep_id)))
      else raise not_found
