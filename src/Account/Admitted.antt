-- ===== src/Account/Admitted.antt =====
-- controllers/auth.go: whom a login admits, and the login after a signup.
use mathlib.Core.Path.{subst}
use portfolio_dashboard.Prelude.{
  ◌+◌, ◌*◌, ◌≡◌, refl, sym, ◌∙◌, ap, Bool, true, false, some, List, [], ◌∷◌, String, nat_eq,
  string_eq, ◌==◌, arith, ==_iff, ==_refl, Option-cases, Bool-cases, inl, inr,
}
use portfolio_dashboard.Clock.{day_length}
use portfolio_dashboard.Errors.{ok}
use portfolio_dashboard.Domain.{ObjectId}
use portfolio_dashboard.Access.{User, Session}
use portfolio_dashboard.Access.Sessions.{Accounts, AccountTables}
use portfolio_dashboard.Exec.{World, call_with, pure, attempt, ◌>>◌}
use portfolio_dashboard.Exec.Success.{bind-ok, call-ok}
use portfolio_dashboard.Account.{Credentials, Reply, answered, refused, Status}
use portfolio_dashboard.Account.Input.{normalize_username, validate_username}
use portfolio_dashboard.Account.Store.{
  find_by_username, update_user, patched_user, inserted_session, insert_session,
}
use portfolio_dashboard.Account.Entry.{
  Fresh, logged_in, new_session, issue_session, admit_user, login_user, login,
}
use portfolio_dashboard.Account.Found.{named, on_found, find_by_username-ok}

module _ (a : Accounts) (c : Credentials) where
  -- The user is found under the username, is neither hidden nor locked, and has the password.
  abbrev pub IsAdmitted : AccountTables a → String → String → User → Type 0
  IsAdmitted t username password u =
      (k : ObjectId) × (a.users.find k t.users ≡ some u)
      × (u.username ≡ normalize_username c username)
      × (u.disabled ≡ false)
      × (u.locked ≡ false)
      × (c.check_password u.password_hash password ≡ true)

  abbrev pub HasSession : AccountTables a → Fresh → ObjectId → Type 0
  HasSession t fresh uid =
      (id : String) × (fresh.session_id ≡ some id)
      × (a.sessions.find id t.sessions
          ≡ some (record {
            id = id;
            user_id = uid;
            created_at = fresh.now;
            expires_at = fresh.now + 30 * day_length;
            user_agent = fresh.user_agent;
          }))

  patched_user-sessions :
      (id : ObjectId) (patch : User → User) (t : AccountTables a)
      → (patched_user a id patch t).1.sessions ≡ t.sessions
  unfolding patched_user
  patched_user-sessions id patch t = elim (Option-cases (a.users.find id t.users)) [
    | inl absent ↦ ground arith
    | inr (u, found) ↦ ground arith
  ]

  insert_session-ok :
      (s : Session) (w : World (AccountTables a))
      → (insert_session a s w).0 ≡ ok tt
      → a.sessions.find s.id (insert_session a s w).1.stored.sessions ≡ some s
  unfolding insert_session
  insert_session-ok s w h = elim (Option-cases (a.sessions.find s.id w.stored.sessions)) [
    | inl new ↦ ground (
      arith,
      call-ok (inserted_session a s) w tt h,
      a.sessions.find-put s.id s.id s w.stored.sessions,
      ==_refl s.id,
    )
    | inr (old, found) ↦ absurd (ground (arith, call-ok (inserted_session a s) w tt h))
  ]

  issue_session-ok :
      (fresh : Fresh) (uid : ObjectId) (w : World (AccountTables a))
      → (issue_session a fresh uid w).0 ≡ ok tt
      → HasSession (issue_session a fresh uid w).1.stored fresh uid
  unfolding issue_session
  issue_session-ok fresh uid w h = elim (Option-cases fresh.session_id) [
    | inl nothing ↦ absurd (ground arith)
    | inr (id, given) ↦
        (id, given, ground (arith, insert_session-ok (new_session a fresh uid id) w))
  ]

  update_user-sessions :
      (id : ObjectId) (patch : User → User) (w : World (AccountTables a))
      → (update_user a id patch w).1.stored.sessions ≡ w.stored.sessions
  unfolding update_user
  update_user-sessions id patch w = kept w.faults id patch w.stored
    where
      kept :
          (faults : List Bool) (id : ObjectId) (patch : User → User) (t : AccountTables a)
          → (call_with faults (patched_user a id patch) t).1.stored.sessions ≡ t.sessions
      kept (true ∷ more) id patch t = refl
      kept (false ∷ more) id patch t = patched_user-sessions id patch t
      kept [] id patch t = patched_user-sessions id patch t

  pub admit_user-ok :
      (fresh : Fresh) (u : User) (r : Reply User) (w : World (AccountTables a))
      → (admit_user a c fresh u w).0 ≡ ok r
      → (r ≡ answered (record u { last_login_at = some fresh.now }))
        × HasSession (admit_user a c fresh u w).1.stored fresh u.id
  unfolding admit_user
  admit_user-ok fresh u r w h =
      let (x, first, e) =
        bind-ok (issue_session a fresh u.id >> attempt (update_user a u.id (logged_in fresh.now)))
          (λ y. pure (answered (record u { last_login_at = some fresh.now }))) w r h in
      let (y, issued, f) =
        bind-ok (issue_session a fresh u.id)
          (λ z. attempt (update_user a u.id (logged_in fresh.now))) w x first in
      let (id, given, found) = issue_session-ok fresh u.id w issued in
      let same : ok r ≡ ok (answered (record u { last_login_at = some fresh.now })) =
        sym h ∙ ap (λ z. z.0) e in
      (
        ground arith,
        (
          id,
          given,
          ap (λ z. a.sessions.find id z.1.stored.sessions) e
              ∙ ap (λ z. a.sessions.find id z.1.stored.sessions) f
              ∙ ap (a.sessions.find id)
                  (update_user-sessions u.id (logged_in fresh.now) (issue_session a fresh u.id w).1)
              ∙ found,
        ),
      )

  pub login_user-ok :
      (fresh : Fresh) (password : String) (u v : User) (w : World (AccountTables a))
      → (login_user a c fresh password u w).0 ≡ ok (answered v)
      → (u.disabled ≡ false)
        × (u.locked ≡ false)
        × (c.check_password u.password_hash password ≡ true)
        × (login_user a c fresh password u w ≡ admit_user a c fresh u w)
  unfolding login_user
  login_user-ok fresh password u v w h = elim (Bool-cases u.disabled) [
    | inl hidden ↦ absurd (ground arith)
    | inr shown ↦ elim (Bool-cases u.locked) [
      | inl shut ↦ absurd (ground arith)
      | inr unlocked ↦ elim (Bool-cases (c.check_password u.password_hash password)) [
        | inl right ↦ (shown, unlocked, right, rw (login_user, shown, unlocked, right) refl)
        | inr wrong ↦
            let refusal : (login_user a c fresh password u w).0 ≡ ok (refused Status.unauthorized) =
              rw (login_user, shown, unlocked, wrong) refl in
            absurd (ground arith)
      ]
    ]
  ]

  login-ok :
      (fresh : Fresh) (username password : String) (w : World (AccountTables a)) (v : User)
      → (login a c fresh username password w).0 ≡ ok (answered v)
      → (u : User) × (x : World (AccountTables a)) × (x.stored ≡ w.stored)
        × (a.users.find_one (λ u. u.username == normalize_username c username) w.stored.users
            ≡ some u)
        × (login a c fresh username password w ≡ login_user a c fresh password u x)
  unfolding login find_by_username
  login-ok fresh username password w v h = elim (Bool-cases (validate_username username)) [
    | inl valid ↦
        let e : login a c fresh username password w
            ≡ on_found a c username Status.unauthorized (login_user a c fresh password) w =
          rw (login, valid) refl in
        let (u, x, same, found, f) =
          find_by_username-ok a c username Status.unauthorized (login_user a c fresh password) w v
            (sym (ap (λ z. z.0) e) ∙ h) in
        (u, x, same, found, e ∙ f)
    | inr invalid ↦
        let refusal : (login a c fresh username password w).0 ≡ ok (refused Status.unauthorized) =
          rw (login, invalid) refl in
        absurd (ground arith)
  ]

  -- A login is answered with a user only if that user is stored under the username, is neither hidden nor
  -- locked, and has the password; the new session is then stored and is that user's, whichever calls of the
  -- database fail.
  pub login-IsAdmitted :
      (fresh : Fresh) (username password : String) (w : World (AccountTables a)) (v : User)
      → (login a c fresh username password w).0 ≡ ok (answered v)
      → (u : User) × IsAdmitted w.stored username password u
        × (v ≡ record u { last_login_at = some fresh.now })
        × HasSession (login a c fresh username password w).1.stored fresh u.id
  login-IsAdmitted fresh username password w v h =
      let (u, x, same, found, e) = login-ok fresh username password w v h in
      let (shown, unlocked, right, f) =
        login_user-ok fresh password u v x (sym (ap (λ z. z.0) e) ∙ h) in
      let (answer, session) =
        admit_user-ok fresh u (answered v) x (sym (ap (λ z. z.0) (e ∙ f)) ∙ h) in
      let (holds, k, stored) = a.users.find_one-found (named a c username) w.stored.users u found in
      (
        u,
        (
          k,
          stored,
          (==_iff u.username (normalize_username c username)).0 holds,
          shown,
          unlocked,
          right,
        ),
        ground arith,
        subst (λ z. HasSession z.1.stored fresh u.id) (sym (e ∙ f)) session,
      )
