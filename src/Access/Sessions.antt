-- ===== src/Access/Sessions.antt =====
-- persistence/sessions.go, and loadSession and refreshSession of httpserver/auth.go. `is_session_id` is whether
-- a text decodes (base64url without padding) to 32 bytes, and `now` the clock's answer.
pub mod Login
use portfolio_dashboard.Prelude.{
  ℕ, ◌+◌, ◌-◌, ◌*◌, Bool, true, false, Option, none, some, String, ◌==◌, string_eq, nat_eq, nat_beq,
  ltb, if◌then◌else◌,
}
use portfolio_dashboard.Clock.{Time, day_length}
use portfolio_dashboard.Errors.{Error, not_found, Result, ok, err}
use portfolio_dashboard.Domain.{ObjectId}
use portfolio_dashboard.Access.{User, Session, session_ttl}
use portfolio_dashboard.Collection.{Collection}
use portfolio_dashboard.Exec.{Exec, World, pure, raise, call, gets, modify, attempt, ◌>>=◌, ◌>>◌}

-- The two collections that a login reads.
pub record Accounts : Type 1 where
  pub sessions : Collection String Session
  pub users : Collection ObjectId User

pub record AccountTables (a : Accounts) : Type 0 where
  pub sessions : a.sessions.State
  pub users : a.users.State

-- What the middleware does to the cookie.
pub data CookieAction : Type 0 where
  keep_cookie clear_cookie : CookieAction
  set_cookie : String → Time → CookieAction

pub record Loaded : Type 0 where
  pub caller : Option (User × String)
  pub cookie : CookieAction

abbrev pub nobody : CookieAction → Loaded
nobody c = record { caller = none; cookie = c }

-- Whether more than 29 of the 30 days are left.
abbrev pub is_fresh : Time → Session → Bool
is_fresh now s = ltb (now + (session_ttl - day_length)) s.expires_at

module _ (a : Accounts) where
  -- `FindByID` of persistence/users.go
  unfoldable pub find_user : ObjectId → Exec (AccountTables a) User
  find_user id = do
    found ← gets (λ t. a.users.find id t.users)
    elim found [ none ↦ raise not_found | some u ↦ pure u ]

module _ (a : Accounts) (is_session_id : String → Bool) where
  -- `Get`
  unfoldable pub get_session : String → Exec (AccountTables a) Session
  get_session id =
      if is_session_id id
      then (do
        found ← gets (λ t. a.sessions.find id t.sessions)
        elim found [ none ↦ raise not_found | some s ↦ pure s ])
      else raise not_found

  -- `Delete`
  unfoldable pub delete_session : String → Exec (AccountTables a) (Unit {0})
  delete_session id =
      if is_session_id id
      then modify (λ t. record t { sessions = a.sessions.remove id t.sessions })
      else pure tt

  -- `SetExpiry`: no error if there is no such session.
  unfoldable pub with_expiry : String → Time → AccountTables a → AccountTables a
  with_expiry id expires t = elim (a.sessions.find id t.sessions) [
    | none ↦ t
    | some s ↦ record t {
      sessions = a.sessions.put id (record s { expires_at = expires }) t.sessions;
    }
  ]

  unfoldable pub set_expiry : String → Time → Exec (AccountTables a) (Unit {0})
  unfolding with_expiry
  set_expiry id expires =
      if is_session_id id then modify (with_expiry id expires) else raise not_found

  unfoldable pub refresh_session : Time → Session → Exec (AccountTables a) CookieAction
  unfolding set_expiry
  refresh_session now s = if is_fresh now s then pure CookieAction.keep_cookie else do
    written ← attempt (set_expiry s.id (now + session_ttl))
    elim written [
      | err e ↦ pure CookieAction.keep_cookie
      | ok u ↦ pure (CookieAction.set_cookie s.id (now + session_ttl))
    ]

  -- Once the session is found and has not expired.
  unfoldable pub load_user : Time → Session → Exec (AccountTables a) Loaded
  unfolding find_user refresh_session
  load_user now s = do
    owner ← attempt (find_user a s.user_id)
    elim owner [
      | err e ↦ pure (nobody CookieAction.clear_cookie)
      | ok u ↦ elim u.disabled [
        | true ↦ pure (nobody CookieAction.clear_cookie)
        | false ↦ do
          c ← refresh_session now s
          pure (record { caller = some (u, s.id); cookie = c })
      ]
    ]

  unfoldable pub load_live : Time → Session → Exec (AccountTables a) Loaded
  unfolding load_user delete_session
  load_live now s =
      if ltb s.expires_at now
      then attempt (delete_session s.id) >> pure (nobody CookieAction.clear_cookie)
      else load_user now s

  -- `loadSession`, with the cookie's value if the request has the cookie.
  unfoldable pub load_session : Time → Option String → Exec (AccountTables a) Loaded
  unfolding load_live get_session
  load_session now none = pure (nobody CookieAction.keep_cookie)
  load_session now (some value) = if value == "" then pure (nobody CookieAction.keep_cookie) else do
    found ← attempt (get_session value)
    elim found [ err e ↦ pure (nobody CookieAction.clear_cookie) | ok s ↦ load_live now s ]
