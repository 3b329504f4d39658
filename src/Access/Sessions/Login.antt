-- ===== src/Access/Sessions/Login.antt =====
-- Whom a session cookie logs in.
use mathlib.Core.Path.{subst}
use portfolio_dashboard.Prelude.{
  ◌≡◌, ◌<◌, ◌≤◌, ◌+◌, ◌*◌, Bool, true, false, Option, none, some, String, List, [], ◌∷◌, string_eq,
  nat_eq, arith, Option-cases, Bool-cases, sym, ==_refl, inl, inr,
}
use portfolio_dashboard.Clock.{Time, day_length}
use portfolio_dashboard.Errors.{Result, ok, err}
use portfolio_dashboard.Access.{User, Session, session_ttl}
use portfolio_dashboard.Exec.{World, healthy}
use portfolio_dashboard.Access.Sessions.{
  is_fresh, with_expiry, Accounts, AccountTables, Loaded, load_session, load_live, load_user,
  get_session, find_user, refresh_session, set_expiry,
}

module _ (a : Accounts) (is_session_id : String → Bool) (now : Time) where
  -- The cookie names a stored session that is not over, of a user who is stored and not hidden.
  abbrev pub IsLogin : String → AccountTables a → User → String → Type 0
  IsLogin value t u sid =
      (s : Session) × (a.sessions.find value t.sessions ≡ some s)
      × (s.id ≡ sid)
      × (now ≤ s.expires_at)
      × (a.users.find s.user_id t.users ≡ some u)
      × (u.disabled ≡ false)

  abbrev pub caller_of : Result Loaded → Option (User × String)
  caller_of (ok l) = l.caller
  caller_of (err e) = none

  load_user-IsLogin :
      (s : Session) (w : World (AccountTables a)) (u : User) (sid : String)
      → caller_of (load_user a is_session_id now s w).0 ≡ some (u, sid)
      → (s.id ≡ sid) × (a.users.find s.user_id w.stored.users ≡ some u) × (u.disabled ≡ false)
  unfolding load_user find_user
  load_user-IsLogin s w u sid h = ground arith

  load_live-IsLogin :
      (s : Session) (w : World (AccountTables a)) (u : User) (sid : String)
      → caller_of (load_live a is_session_id now s w).0 ≡ some (u, sid)
      → (now ≤ s.expires_at)
        × (s.id ≡ sid)
        × (a.users.find s.user_id w.stored.users ≡ some u)
        × (u.disabled ≡ false)
  unfolding load_live
  load_live-IsLogin s w u sid h = ground (arith, load_user-IsLogin s w u sid)

  -- A read of a stored session leads on with that session, or nobody is logged in.
  load_session-found :
      (value : String) (faults : List Bool) (t : AccountTables a) (u : User) (sid : String)
      → caller_of
          (load_session a is_session_id now (some value) (record { stored = t; faults = faults })).0
        ≡ some (u, sid)
      → (s : Session) × (more : List Bool) × (a.sessions.find value t.sessions ≡ some s)
        × (caller_of (load_live a is_session_id now s (record { stored = t; faults = more })).0
            ≡ some (u, sid))
  unfolding load_session get_session
  load_session-found value (true ∷ more) t u sid h = absurd (ground arith)
  load_session-found value (false ∷ more) t u sid h =
      elim (Option-cases (a.sessions.find value t.sessions)) [
        | inl absent ↦ absurd (ground arith)
        | inr (s, found) ↦ (s, more, found, ground arith)
      ]
  load_session-found value [] t u sid h = elim (Option-cases (a.sessions.find value t.sessions)) [
    | inl absent ↦ absurd (ground arith)
    | inr (s, found) ↦ (s, [], found, ground arith)
  ]

  -- A request is somebody's only if its cookie names a stored session that is not over, of a user who is
  -- stored and not hidden, whichever calls of the database fail.
  pub load_session-IsLogin :
      (value : String) (w : World (AccountTables a)) (u : User) (sid : String)
      → caller_of (load_session a is_session_id now (some value) w).0 ≡ some (u, sid)
      → IsLogin value w.stored u sid
  load_session-IsLogin value w u sid h =
      let (s, more, found, rest) = load_session-found value w.faults w.stored u sid h in
      let (live, same, owner, enabled) =
        load_live-IsLogin s (record { stored = w.stored; faults = more }) u sid rest in
      (s, found, same, live, owner, enabled)

  -- The session is stored and has more than 29 days left.
  abbrev pub IsFresh : String → AccountTables a → Type 0
  IsFresh id t =
      (s : Session) × (a.sessions.find id t.sessions ≡ some s)
      × (now + 29 * day_length < s.expires_at)

  refresh_session-IsFresh :
      (s : Session) (t : AccountTables a)
      → a.sessions.find s.id t.sessions ≡ some s
      → is_session_id s.id ≡ true
      → IsFresh s.id (refresh_session a is_session_id now s (healthy t)).1.stored
  unfolding refresh_session set_expiry with_expiry
  refresh_session-IsFresh s t found valid = elim (Bool-cases (is_fresh now s)) [
    | inl fresh ↦ (s, ground arith, ground arith)
    | inr stale ↦ (
      record s { expires_at = now + session_ttl },
      ground (
        arith,
        ==_refl s.id,
        a.sessions.find-put s.id s.id (record s { expires_at = now + session_ttl }) t.sessions,
      ),
      omega arith,
    )
  ]

  load_session-refresh_session :
      (s : Session) (t : AccountTables a) (u : User) (sid : String)
      → a.sessions.find s.id t.sessions ≡ some s
      → caller_of (load_session a is_session_id now (some s.id) (healthy t)).0 ≡ some (u, sid)
      → (is_session_id s.id ≡ true)
        × ((load_session a is_session_id now (some s.id) (healthy t)).1.stored
            ≡ (refresh_session a is_session_id now s (healthy t)).1.stored)
  unfolding load_session get_session load_live load_user find_user
  load_session-refresh_session s t u sid found h = ground arith

  -- With a database that answers, a session that logs its owner in has more than 29 days left afterwards,
  -- whatever was left of it before, if it is stored under its own id.
  pub load_session_slides :
      (s : Session) (t : AccountTables a) (u : User) (sid : String)
      → a.sessions.find s.id t.sessions ≡ some s
      → caller_of (load_session a is_session_id now (some s.id) (healthy t)).0 ≡ some (u, sid)
      → IsFresh s.id (load_session a is_session_id now (some s.id) (healthy t)).1.stored
  load_session_slides s t u sid found h =
      let (valid, same) = load_session-refresh_session s t u sid found h in
      subst (IsFresh s.id) (sym same) (refresh_session-IsFresh s t found valid)
