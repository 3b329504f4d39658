-- ===== src/Account/Own.antt =====
-- controllers/auth.go: what users do to their own account. The caller is the user of the request's session,
-- as the gate has loaded it.
use portfolio_dashboard.Prelude.{
  Bool, true, false, not, Option, none, some, is_none, List, String, ◌==◌, string_eq, if◌then◌else◌,
}
use portfolio_dashboard.Clock.{Time}
use portfolio_dashboard.Errors.{is_duplicate, crypto, Result, ok, err}
use portfolio_dashboard.Access.{User, SecurityAnswer}
use portfolio_dashboard.Access.Sessions.{Accounts, AccountTables}
use portfolio_dashboard.Exec.{Exec, pure, raise, attempt, ◌>>=◌, ◌>>◌}
use portfolio_dashboard.Account.{Credentials, Reply, answered, refused, Status}
use portfolio_dashboard.Account.Input.{
  SecurityAnswerInput, validate_username, validate_name, validate_password, normalize_username,
  hash_security_answers,
}
use portfolio_dashboard.Account.Store.{find_by_username, update_user}
use portfolio_dashboard.Account.Entry.{Fresh, invalidate_other_sessions}

-- The caller and the id of the request's session.
pub record Caller : Type 0 where
  pub user : Option User
  pub session_id : Option String

pub record ChangePasswordRequest : Type 0 where
  pub current_password : String
  pub new_password : String

pub record UpdateProfileRequest : Type 0 where
  pub current_password : String
  pub name : Option String
  pub username : Option String

pub record UpdateSecurityQuestionsRequest : Type 0 where
  pub current_password : String
  pub security_answers : List SecurityAnswerInput

pub record OnboardingRequest : Type 0 where
  pub current_password : String
  pub new_password : String
  pub security_answers : List SecurityAnswerInput

abbrev pub with_password : Time → String → User → User
with_password now hash u = record u { password_hash = hash; updated_at = now }

abbrev pub with_questions : Time → List SecurityAnswer → User → User
with_questions now answers u = record u { security_questions = answers; updated_at = now }

abbrev pub onboarded : Time → String → List SecurityAnswer → User → User
onboarded now hash answers u = record u {
  password_hash = hash;
  security_questions = answers;
  must_change_password = false;
  updated_at = now;
}

-- `GetMe`
unfoldable pub get_me : Caller → Reply User
get_me caller = elim caller.user [ none ↦ refused Status.unauthorized | some u ↦ answered u ]

module _ (c : Credentials) where
  abbrev pub with_name : Option String → User → User
  with_name none u = u
  with_name (some name) u = record u { name = c.trim_space name }

  unfoldable pub with_username : Option String → User → User
  unfolding normalize_username
  with_username none u = u
  with_username (some username) u = record u {
    username = normalize_username c username;
    username_display = c.trim_space username;
  }

  -- The fields that `UpdateProfile` sets.
  unfoldable pub profile_patch : Time → UpdateProfileRequest → User → User
  unfolding with_username
  profile_patch now r u =
      with_username r.username (with_name r.name (record u { updated_at = now }))

  abbrev pub is_valid_if_given : (String → Bool) → Option String → Bool
  is_valid_if_given valid none = true
  is_valid_if_given valid (some text) = valid text

module _ (a : Accounts) (is_session_id : String → Bool) (c : Credentials) where
  -- The start of every handler: who calls, and with which password.
  unfoldable pub confirmed :
      {A : Type 0}
      → Caller
      → String
      → (User → Exec (AccountTables a) (Reply A))
      → Exec (AccountTables a) (Reply A)
  confirmed caller password handler = elim caller.user [
    | none ↦ pure (refused Status.unauthorized)
    | some u ↦
        if c.check_password u.password_hash password
        then handler u
        else pure (refused Status.unauthorized)
  ]

  unfoldable pub change_password_of :
      Fresh → Caller → String → User → Exec (AccountTables a) (Reply (Unit {0}))
  unfolding validate_password update_user invalidate_other_sessions
  change_password_of fresh caller new_password u =
      if validate_password new_password
      then elim (c.hash_password new_password) [
        | none ↦ raise crypto
        | some hash ↦
            update_user a u.id (with_password fresh.now hash)
            >> invalidate_other_sessions a is_session_id caller.session_id u.id
            >> pure (answered tt)
      ]
      else pure (refused Status.bad_request)

  -- `ChangePassword`
  unfoldable pub change_password :
      Fresh → Caller → ChangePasswordRequest → Exec (AccountTables a) (Reply (Unit {0}))
  unfolding confirmed change_password_of
  change_password fresh caller r =
      confirmed caller r.current_password (change_password_of fresh caller r.new_password)

  -- The lookup of the new username: whether another account has it.
  unfoldable pub username_is_taken : Option String → User → Exec (AccountTables a) Bool
  unfolding normalize_username find_by_username
  username_is_taken none u = pure false
  username_is_taken (some username) u =
      if normalize_username c username == u.username then pure false else (do
        existing ← find_by_username a c (normalize_username c username)
        pure (not (is_none existing)))

  unfoldable pub profile_written : User → Result (Unit {0}) → Exec (AccountTables a) (Reply User)
  profile_written updated (ok done) = pure (answered updated)
  profile_written updated (err e) =
      if is_duplicate e then pure (refused Status.conflict) else raise e

  unfoldable pub update_profile_of :
      Fresh → UpdateProfileRequest → User → Exec (AccountTables a) (Reply User)
  unfolding validate_name validate_username username_is_taken with_username profile_patch
      update_user profile_written
  update_profile_of fresh r u =
      if is_valid_if_given c (validate_name c) r.name
      then (if is_valid_if_given c validate_username r.username
          then (do
            taken ← username_is_taken r.username u
            if taken then pure (refused Status.conflict) else (do
              written ← attempt (update_user a u.id (profile_patch c fresh.now r))
              profile_written (with_username c r.username (with_name c r.name u)) written))
          else pure (refused Status.bad_request))
      else pure (refused Status.bad_request)

  -- `UpdateProfile`
  unfoldable pub update_profile :
      Fresh → Caller → UpdateProfileRequest → Exec (AccountTables a) (Reply User)
  unfolding confirmed update_profile_of
  update_profile fresh caller r = confirmed caller r.current_password (update_profile_of fresh r)

  unfoldable pub update_questions_of :
      Fresh → List SecurityAnswerInput → User → Exec (AccountTables a) (Reply (Unit {0}))
  unfolding hash_security_answers update_user
  update_questions_of fresh answers u = elim (hash_security_answers c answers) [
    | none ↦ pure (refused Status.bad_request)
    | some hashed ↦ update_user a u.id (with_questions fresh.now hashed) >> pure (answered tt)
  ]

  -- `UpdateSecurityQuestions`
  unfoldable pub update_security_questions :
      Fresh → Caller → UpdateSecurityQuestionsRequest → Exec (AccountTables a) (Reply (Unit {0}))
  unfolding confirmed update_questions_of
  update_security_questions fresh caller r =
      confirmed caller r.current_password (update_questions_of fresh r.security_answers)

  unfoldable pub onboard :
      Fresh → Caller → String → List SecurityAnswer → User → Exec (AccountTables a) (Reply User)
  unfolding update_user invalidate_other_sessions
  onboard fresh caller new_password answers u = elim (c.hash_password new_password) [
    | none ↦ raise crypto
    | some hash ↦
        update_user a u.id (onboarded fresh.now hash answers)
        >> invalidate_other_sessions a is_session_id caller.session_id u.id
        >> pure (answered (record u { must_change_password = false; security_questions = answers }))
  ]

  unfoldable pub complete_onboarding_of :
      Fresh → Caller → OnboardingRequest → User → Exec (AccountTables a) (Reply User)
  unfolding validate_password hash_security_answers onboard
  complete_onboarding_of fresh caller r u =
      if validate_password r.new_password
      then elim (hash_security_answers c r.security_answers) [
        | none ↦ pure (refused Status.bad_request)
        | some answers ↦ onboard fresh caller r.new_password answers u
      ]
      else pure (refused Status.bad_request)

  -- `CompleteOnboarding`
  unfoldable pub complete_onboarding :
      Fresh → Caller → OnboardingRequest → Exec (AccountTables a) (Reply User)
  unfolding confirmed complete_onboarding_of
  complete_onboarding fresh caller r =
      confirmed caller r.current_password (complete_onboarding_of fresh caller r)
