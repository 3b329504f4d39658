-- ===== src/Account/Entry.antt =====
-- controllers/session.go, and the signup, the login and the logout of controllers/auth.go.
use portfolio_dashboard.Prelude.{
  ◌+◌, Bool, false, not, ◌&&◌, Option, none, some, List, String, string_eq, if◌then◌else◌,
}
use portfolio_dashboard.Clock.{Time}
use portfolio_dashboard.Errors.{is_duplicate, crypto, Result, ok, err}
use portfolio_dashboard.Domain.{ObjectId}
use portfolio_dashboard.Access.{Role, User, Session, SecurityAnswer, session_ttl}
use portfolio_dashboard.Access.Sessions.{Accounts, AccountTables, delete_session}
use portfolio_dashboard.Exec.{Exec, pure, raise, attempt, ◌>>=◌, ◌>>◌}
use portfolio_dashboard.Account.{Credentials, Reply, answered, refused, Status}
use portfolio_dashboard.Account.Input.{
  SecurityAnswerInput, validate_username, validate_name, validate_password, valid_region,
  normalize_username, hash_security_answers,
}
use portfolio_dashboard.Account.Store.{
  insert_user, update_user, inc_login_failures, find_by_username, insert_session, delete_by_user,
  delete_others,
}

-- What the server takes from outside for one request: the time, the id that a new user gets, a new session
-- id if the random source answers, and the client's name.
pub record Fresh : Type 0 where
  pub now : Time
  pub user_id : ObjectId
  pub session_id : Option String
  pub user_agent : String

pub record SignupRequest : Type 0 where
  pub username : String
  pub name : String
  pub password : String
  pub region : String
  pub security_answers : List SecurityAnswerInput

-- `domain.User` with the fields that the signup sets; the others are zero.
unfoldable pub new_user : Credentials → Fresh → SignupRequest → String → List SecurityAnswer → User
unfolding normalize_username
new_user c fresh r hash answers = record {
  id = fresh.user_id;
  username = normalize_username c r.username;
  username_display = c.trim_space r.username;
  name = c.trim_space r.name;
  password_hash = hash;
  role = Role.user;
  region = r.region;
  disabled = false;
  locked = false;
  gold_enabled = false;
  premium = false;
  delta_from_history = false;
  login_failures = 0;
  security_question_failures = 0;
  must_change_password = false;
  security_questions = answers;
  created_at = fresh.now;
  updated_at = fresh.now;
  last_login_at = none;
}

abbrev pub logged_in : Time → User → User
logged_in now u = record u { last_login_at = some now; login_failures = 0 }

module _ (a : Accounts) where
  abbrev pub new_session : Fresh → ObjectId → String → Session
  new_session fresh uid id = record {
    id = id;
    user_id = uid;
    created_at = fresh.now;
    expires_at = fresh.now + session_ttl;
    user_agent = fresh.user_agent;
  }

  -- `issueSession`
  unfoldable pub issue_session : Fresh → ObjectId → Exec (AccountTables a) (Unit {0})
  unfolding insert_session
  issue_session fresh uid = elim fresh.session_id [
    | none ↦ raise crypto
    | some id ↦ insert_session a (new_session fresh uid id)
  ]

  -- `invalidateAllSessions`
  unfoldable pub invalidate_all_sessions : ObjectId → Exec (AccountTables a) (Unit {0})
  unfolding delete_by_user
  invalidate_all_sessions uid = delete_by_user a uid

module _ (a : Accounts) (is_session_id : String → Bool) where
  -- `destroySession`, with the id of the request's session.
  unfoldable pub destroy_session : Option String → Exec (AccountTables a) (Unit {0})
  unfolding delete_session
  destroy_session none = pure tt
  destroy_session (some sid) = delete_session a is_session_id sid

  -- `invalidateOtherSessions`
  unfoldable pub invalidate_other_sessions :
      Option String → ObjectId → Exec (AccountTables a) (Unit {0})
  unfolding delete_others
  invalidate_other_sessions none uid = delete_others a is_session_id uid ""
  invalidate_other_sessions (some sid) uid = delete_others a is_session_id uid sid

  -- `Logout`
  unfoldable pub logout : Option String → Exec (AccountTables a) (Reply (Unit {0}))
  unfolding destroy_session
  logout sid = destroy_session sid >> pure (answered tt)

module _ (a : Accounts) (c : Credentials) where
  unfoldable pub signup_inserted :
      Fresh → User → Result (Unit {0}) → Exec (AccountTables a) (Reply User)
  unfolding issue_session
  signup_inserted fresh u (ok done) = issue_session a fresh u.id >> pure (answered u)
  signup_inserted fresh u (err e) =
      if is_duplicate e then pure (refused Status.conflict) else raise e

  -- Once the request is valid.
  unfoldable pub signup_valid :
      Fresh → SignupRequest → List SecurityAnswer → Exec (AccountTables a) (Reply User)
  unfolding find_by_username insert_user signup_inserted new_user
  signup_valid fresh r answers = do
    existing ← find_by_username a c r.username
    elim existing [
      | some u ↦ pure (refused Status.conflict)
      | none ↦ elim (c.hash_password r.password) [
        | none ↦ raise crypto
        | some hash ↦ do
          inserted ← attempt (insert_user a (new_user c fresh r hash answers))
          signup_inserted fresh (new_user c fresh r hash answers) inserted
      ]
    ]

  -- `Signup`
  unfoldable pub signup : Fresh → SignupRequest → Exec (AccountTables a) (Reply User)
  unfolding signup_valid hash_security_answers
  signup fresh r =
      if validate_username r.username
        && validate_name c r.name
        && validate_password r.password
        && valid_region r.region
      then elim (hash_security_answers c r.security_answers) [
        | none ↦ pure (refused Status.bad_request)
        | some answers ↦ signup_valid fresh r answers
      ]
      else pure (refused Status.bad_request)

  -- Once the password is right.
  unfoldable pub admit_user : Fresh → User → Exec (AccountTables a) (Reply User)
  unfolding issue_session update_user
  admit_user fresh u =
      issue_session a fresh u.id
      >> attempt (update_user a u.id (logged_in fresh.now))
      >> pure (answered (record u { last_login_at = some fresh.now }))

  -- Once the account is found.
  unfoldable pub login_user : Fresh → String → User → Exec (AccountTables a) (Reply User)
  unfolding inc_login_failures admit_user
  login_user fresh password u =
      if u.disabled
      then pure (refused Status.forbidden)
      else if u.locked
      then pure (refused Status.locked)
      else if not (c.check_password u.password_hash password)
      then attempt (inc_login_failures a u.id) >> pure (refused Status.unauthorized)
      else admit_user fresh u

  -- `Login`
  unfoldable pub login : Fresh → String → String → Exec (AccountTables a) (Reply User)
  unfolding validate_username find_by_username login_user
  login fresh username password =
      if validate_username username
      then (do
        found ← find_by_username a c username
        elim found [
          | none ↦ pure (refused Status.unauthorized)
          | some u ↦ login_user fresh password u
        ])
      else pure (refused Status.unauthorized)
