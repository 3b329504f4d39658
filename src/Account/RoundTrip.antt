-- ===== src/Account/RoundTrip.antt =====
-- controllers/auth.go: a signup, and a login with the same username and password.
use mathlib.Core.Path.{subst}
use portfolio_dashboard.Prelude.{
  ◌≡◌, refl, sym, ◌∙◌, ap, inl, inr, true, false, ◌&&◌, Option, none, some, String, List, nat_eq,
  string_eq, ◌==◌, is_none, arith, Option-cases, Bool-cases,
}
use portfolio_dashboard.Errors.{Result, ok, err, crypto}
use portfolio_dashboard.Collection.{find-put_self}
use portfolio_dashboard.Domain.{ObjectId}
use portfolio_dashboard.Access.{User, Session, SecurityAnswer}
use portfolio_dashboard.Access.Sessions.{Accounts, AccountTables}
use portfolio_dashboard.Exec.{World, Exec, pure, raise, attempt, healthy, ◌>>=◌}
use portfolio_dashboard.Exec.Success.{bind-ok, call-ok, gets-ok}
use portfolio_dashboard.Account.{Credentials, Reply, answered, refused, Status}
use portfolio_dashboard.Account.Input.{
  normalize_username, validate_username, validate_name, validate_password, valid_region,
  hash_security_answers,
}
use portfolio_dashboard.Account.Store.{
  find_by_username, inserted, insert_user, inserted_session, insert_session,
}
use portfolio_dashboard.Account.Entry.{
  Fresh, SignupRequest, new_user, new_session, issue_session, signup_inserted, signup_valid, signup,
  admit_user, login_user, login,
}
use portfolio_dashboard.Account.Directory.{IsDirectory}
use portfolio_dashboard.Account.Found.{named, find_one-named}
use portfolio_dashboard.Account.Kept.{signup-Steps}

module _ (a : Accounts) (c : Credentials) where
  inserted_session-users :
      (s : Session) (t : AccountTables a) → (inserted_session a s t).1.users ≡ t.users
  unfolding inserted_session
  inserted_session-users s t = ground arith

  issue_session-users :
      (fresh : Fresh) (uid : ObjectId) (w : World (AccountTables a))
      → (issue_session a fresh uid w).0 ≡ ok tt
      → (issue_session a fresh uid w).1.stored.users ≡ w.stored.users
  unfolding issue_session insert_session
  issue_session-users fresh uid w h = elim (Option-cases fresh.session_id) [
    | inl nothing ↦ absurd (ground arith)
    | inr (id, given) ↦
        let s = new_session a fresh uid id in
        let e : issue_session a fresh uid w ≡ insert_session a s w =
          rw (issue_session, given) refl in
        ap (λ z. z.1.stored.users) e
        ∙ ap (λ t. t.users) (call-ok (inserted_session a s) w tt (sym (ap (λ z. z.0) e) ∙ h)).1
        ∙ inserted_session-users s w.stored
  ]

  signup_inserted-ok :
      (fresh : Fresh) (n u : User) (r : Result (Unit {0})) (w : World (AccountTables a))
      → (signup_inserted a c fresh n r w).0 ≡ ok (answered u)
      → (r ≡ ok tt) × (u ≡ n) × ((signup_inserted a c fresh n r w).1.stored.users ≡ w.stored.users)
  unfolding signup_inserted
  signup_inserted-ok fresh n u (ok done) w h =
      let (x, issued, e) =
        bind-ok (issue_session a fresh n.id) (λ y. pure (answered n)) w (answered u) h in
      let same = sym h ∙ ap (λ z. z.0) e in
      (refl, ground arith, ap (λ z. z.1.stored.users) e ∙ issue_session-users fresh n.id w issued)
  signup_inserted-ok fresh n u (err e) w h = absurd (ground arith)

  inserted-ok :
      (n : User) (t : AccountTables a)
      → (inserted a n t).0 ≡ ok tt
      → a.users.find n.id (inserted a n t).1.users ≡ some n
  unfolding inserted
  inserted-ok n t h =
      elim (Bool-cases (
        is_none (a.users.find n.id t.users)
        && is_none (a.users.find_one (λ v. v.username == n.username) t.users))) [
          | inl free ↦ rw (inserted, free) (find-put_self a.users n.id n t.users)
          | inr taken ↦ absurd (ground arith)
        ]

  abbrev signup_insert :
      Fresh → SignupRequest → List SecurityAnswer → String → Exec (AccountTables a) (Reply User)
  signup_insert fresh r answers hash =
      attempt (insert_user a (new_user c fresh r hash answers)) >>= λ inserted.
      signup_inserted a c fresh (new_user c fresh r hash answers) inserted

  abbrev signup_existing :
      Fresh
      → SignupRequest
      → List SecurityAnswer
      → Option User
      → Exec (AccountTables a) (Reply User)
  signup_existing fresh r answers existing = elim existing [
    | some u ↦ pure (refused Status.conflict)
    | none ↦ elim (c.hash_password r.password) [
      | none ↦ raise crypto
      | some hash ↦ signup_insert fresh r answers hash
    ]
  ]

  signup_insert-ok :
      (fresh : Fresh) (r : SignupRequest) (answers : List SecurityAnswer) (hash : String) (u : User)
      (w : World (AccountTables a))
      → (signup_insert fresh r answers hash w).0 ≡ ok (answered u)
      → (u ≡ new_user c fresh r hash answers)
        × (a.users.find u.id (signup_insert fresh r answers hash w).1.stored.users ≡ some u)
  unfolding insert_user
  signup_insert-ok fresh r answers hash u w h =
      let n = new_user c fresh r hash answers in
      let m = insert_user a n w in
      let (done, same, kept) = signup_inserted-ok fresh n u m.0 m.1 h in
      let (accepted, after) = call-ok (inserted a n) w tt done in
      (
        same,
        subst
            (λ v. a.users.find v.id (signup_insert fresh r answers hash w).1.stored.users ≡ some v)
            (sym same)
            (ap (a.users.find n.id) (kept ∙ ap (λ t. t.users) after)
              ∙ inserted-ok n w.stored accepted),
      )

  signup_valid-ok :
      (fresh : Fresh) (r : SignupRequest) (answers : List SecurityAnswer) (u : User)
      (w : World (AccountTables a))
      → (signup_valid a c fresh r answers w).0 ≡ ok (answered u)
      → (hash : String) × (c.hash_password r.password ≡ some hash)
        × (u ≡ new_user c fresh r hash answers)
        × (a.users.find u.id (signup_valid a c fresh r answers w).1.stored.users ≡ some u)
  unfolding signup_valid find_by_username insert_user
  signup_valid-ok fresh r answers u w h =
      let (x, same, e) =
        gets-ok (λ t. a.users.find_one (named a c r.username) t.users)
          (signup_existing fresh r answers) w (answered u) h in
      elim (Option-cases (a.users.find_one (named a c r.username) w.stored.users)) [
        | inr (v, taken) ↦
            let refusal : (signup_valid a c fresh r answers w).0 ≡ ok (refused Status.conflict) =
              ap (λ z. z.0) e ∙ rw taken refl in
            absurd (ground arith)
        | inl free ↦ elim (Option-cases (c.hash_password r.password)) [
          | inl failed ↦
              let error : (signup_valid a c fresh r answers w).0 ≡ err crypto =
                ap (λ z. z.0) e ∙ rw (free, signup_existing, failed) refl in
              absurd (ground arith)
          | inr (hash, hashed) ↦
              let f : signup_valid a c fresh r answers w ≡ signup_insert fresh r answers hash x =
                e ∙ rw (free, signup_existing, hashed) refl in
              let (new, stored) =
                signup_insert-ok fresh r answers hash u x (sym (ap (λ z. z.0) f) ∙ h) in
              (hash, hashed, new, ap (λ z. a.users.find u.id z.1.stored.users) f ∙ stored)
        ]
      ]

  signup-ok :
      (fresh : Fresh) (r : SignupRequest) (u : User) (w : World (AccountTables a))
      → (signup a c fresh r w).0 ≡ ok (answered u)
      → (validate_username r.username ≡ true)
        × (hash : String) × (answers : List SecurityAnswer) × (c.hash_password r.password
            ≡ some hash)
        × (u ≡ new_user c fresh r hash answers)
        × (a.users.find u.id (signup a c fresh r w).1.stored.users ≡ some u)
  unfolding signup
  signup-ok fresh r u w h =
      elim (Bool-cases (
        validate_username r.username
        && validate_name c r.name
        && validate_password r.password
        && valid_region r.region)) [
          | inr invalid ↦
              let refusal : (signup a c fresh r w).0 ≡ ok (refused Status.bad_request) =
                rw (signup, invalid) refl in
              absurd (ground arith)
          | inl valid ↦ elim (Option-cases (hash_security_answers c r.security_answers)) [
            | inl wrong ↦
                let refusal : (signup a c fresh r w).0 ≡ ok (refused Status.bad_request) =
                  rw (signup, valid, wrong) refl in
                absurd (ground arith)
            | inr (answers, hashed) ↦
                let e : signup a c fresh r w ≡ signup_valid a c fresh r answers w =
                  rw (signup, valid, hashed) refl in
                let (hash, made, new, stored) =
                  signup_valid-ok fresh r answers u w (sym (ap (λ z. z.0) e) ∙ h) in
                (
                  ground arith,
                  hash,
                  answers,
                  made,
                  new,
                  ap (λ z. a.users.find u.id z.1.stored.users) e ∙ stored,
                )
          ]
        ]

  admit_user-answers :
      (fresh : Fresh) (id : String) (u : User) (t : AccountTables a)
      → fresh.session_id ≡ some id
      → a.sessions.find id t.sessions ≡ none
      → (admit_user a c fresh u (healthy t)).0
        ≡ ok (answered (record u { last_login_at = some fresh.now }))
  unfolding admit_user issue_session insert_session inserted_session
  admit_user-answers fresh id u t given new = rw (issue_session, given, inserted_session, new) refl

  login-answers :
      (fresh : Fresh) (username password : String) (id : String) (k : ObjectId) (u : User)
      (t : AccountTables a)
      → IsDirectory a t
      → a.users.find k t.users ≡ some u
      → validate_username username ≡ true
      → u.username ≡ normalize_username c username
      → u.disabled ≡ false
      → u.locked ≡ false
      → c.check_password u.password_hash password ≡ true
      → fresh.session_id ≡ some id
      → a.sessions.find id t.sessions ≡ none
      → (login a c fresh username password (healthy t)).0
        ≡ ok (answered (record u { last_login_at = some fresh.now }))
  unfolding login find_by_username login_user
  login-answers fresh username password id k u t d stored valid name shown unlocked right given
        new =
      let e : login a c fresh username password (healthy t)
          ≡ login_user a c fresh password u (healthy t) =
        rw (login, valid, find_one-named a c username t k u d stored name) refl in
      let f : login_user a c fresh password u (healthy t) ≡ admit_user a c fresh u (healthy t) =
        rw (login_user, shown, unlocked, right) refl in
      ap (λ z. z.0) (e ∙ f) ∙ admit_user-answers fresh id u t given new

  -- After a signup that was answered with a user, a login with the same username and password is answered
  -- with that user and the time of the login, if the database answers and the login's session id is new;
  -- before the signup, users were stored under their own ids and different names.
  pub login-signup :
      (fresh again : Fresh) (r : SignupRequest) (u : User) (w : World (AccountTables a))
      (id : String)
      → IsDirectory a w.stored
      → (signup a c fresh r w).0 ≡ ok (answered u)
      → again.session_id ≡ some id
      → a.sessions.find id (signup a c fresh r w).1.stored.sessions ≡ none
      → (login a c again r.username r.password (healthy (signup a c fresh r w).1.stored)).0
        ≡ ok (answered (record u { last_login_at = some again.now }))
  unfolding new_user
  login-signup fresh again r u w id d h given new =
      let (valid, hash, answers, made, same, stored) = signup-ok fresh r u w h in
      login-answers again r.username r.password id u.id u (signup a c fresh r w).1.stored
        ((signup-Steps a c fresh r).at w d) stored valid (ap (λ v. v.username) same)
        (ap (λ v. v.disabled) same) (ap (λ v. v.locked) same)
        (ap (λ v. c.check_password v.password_hash r.password) same
          ∙ c.check_password-hash_password r.password hash made)
        given new
