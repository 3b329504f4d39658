-- ===== src/Account/Kept.antt =====
-- The directory of users is kept by the signup, the login and the recovery of a password.
pub mod Own
use portfolio_dashboard.Prelude.{
  ◌≡◌, ◌∙◌, refl, Bool, true, false, not, ◌&&◌, Option, none, some, List, [], ◌∷◌, String, nat_eq,
  string_eq, ◌==◌,
}
use portfolio_dashboard.Errors.{Error, Result, ok, err, is_duplicate, crypto, not_found}
use portfolio_dashboard.Clock.{Time}
use portfolio_dashboard.Domain.{ObjectId}
use portfolio_dashboard.Access.{User, Session, SecurityAnswer}
use portfolio_dashboard.Access.Sessions.{Accounts, AccountTables, delete_session}
use portfolio_dashboard.Exec.{World, Exec, pure, raise, attempt, ◌>>=◌, ◌>>◌}
use portfolio_dashboard.Exec.Steps.{
  Steps, Steps-pure, Steps-raise, Steps-if, Steps-bind, Steps-option, Steps-attempt, Steps-read,
  IsPreorder, Steps-modify,
}
use portfolio_dashboard.Account.{Credentials, Reply, answered, refused, Status}
use portfolio_dashboard.Account.Input.{
  hash_security_answers, validate_password, validate_name, validate_username, normalize_username,
}
use portfolio_dashboard.Account.Store.{
  find_by_username, delete_by_user, delete_others, update_user, inc_login_failures,
  register_recovery_failure, insert_user, insert_session, one_more_login_failure,
  one_more_recovery_failure,
}
use portfolio_dashboard.Account.Entry.{
  Fresh, SignupRequest, new_user, logged_in, new_session, issue_session, invalidate_all_sessions,
  destroy_session, invalidate_other_sessions, logout, signup_inserted, signup_valid, signup,
  admit_user, login_user, login,
}
use portfolio_dashboard.Account.Recovery.{
  RecoverRequest, is_recovery_locked, recovered, all_correct, recovery_failed, set_recovered,
  recover_user, recover_password, get_recovery_questions,
}
use portfolio_dashboard.Account.Own.{
  Caller, ChangePasswordRequest, UpdateProfileRequest, UpdateSecurityQuestionsRequest,
  OnboardingRequest, with_password, with_questions, onboarded, profile_patch, is_valid_if_given,
  with_name, with_username, confirmed, change_password_of, change_password, username_is_taken,
  profile_written, update_profile_of, update_profile, update_questions_of,
  update_security_questions, onboard, complete_onboarding_of, complete_onboarding,
}
use portfolio_dashboard.Account.Requests.{AccountRequest, after, after_all}
use portfolio_dashboard.Account.Directory.{
  IsDirectory, KeepsDirectory, KeepsDirectory-IsPreorder, insert_user-Steps, update_user-Steps,
  insert_session-Steps, drop_sessions-Steps, remove_session-Steps,
}

module _ (a : Accounts) (c : Credentials) where
  abbrev pub R : AccountTables a → AccountTables a → Type 0
  R = KeepsDirectory a

  abbrev pub order : IsPreorder R
  order = KeepsDirectory-IsPreorder a

  issue_session-Steps : (fresh : Fresh) (uid : ObjectId) → Steps R (issue_session a fresh uid)
  unfolding issue_session
  issue_session-Steps fresh uid =
      Steps-option R order fresh.session_id _ _ (Steps-raise R order crypto)
        (λ id. insert_session-Steps a (new_session a fresh uid id))

  signup_inserted-Steps :
      (fresh : Fresh) (u : User) (r : Result (Unit {0})) → Steps R (signup_inserted a c fresh u r)
  unfolding signup_inserted
  signup_inserted-Steps fresh u (ok done) =
      Steps-bind R order (issue_session a fresh u.id) _ (issue_session-Steps fresh u.id)
        (λ x. Steps-pure R order (answered u))
  signup_inserted-Steps fresh u (err e) =
      Steps-if R order (is_duplicate e) _ _ (λ h. Steps-pure R order (refused Status.conflict))
        (λ h. Steps-raise R order e)

  -- A handler that looks a user up by name first.
  Steps-found :
      {A : Type 0} (username : String) (m : Exec (AccountTables a) A)
      (f : User → Exec (AccountTables a) A)
      → Steps R m
      → ((u : User) → Steps R (f u))
      → Steps R (find_by_username a c username >>= λ found. elim found [ none ↦ m | some u ↦ f u ])
  unfolding find_by_username
  Steps-found username m f h k =
      Steps-bind R order (find_by_username a c username) _ (Steps-read R order _)
        (λ found. Steps-option R order found m f h k)

  -- A write, and then an answer.
  pub Steps-then :
      {A B : Type 0} (m : Exec (AccountTables a) A) (n : Exec (AccountTables a) B)
      → Steps R m
      → Steps R n
      → Steps R (m >> n)
  Steps-then m n h k = Steps-bind R order m (λ x. n) h (λ x. k)

  signup_valid-Steps :
      (fresh : Fresh) (r : SignupRequest) (answers : List SecurityAnswer)
      → Steps R (signup_valid a c fresh r answers)
  unfolding signup_valid
  signup_valid-Steps fresh r answers =
      Steps-found r.username _ _
        (Steps-option R order (c.hash_password r.password) _ _ (Steps-raise R order crypto) (λ hash.
          Steps-bind R order (attempt (insert_user a (new_user c fresh r hash answers))) _
            (Steps-attempt R order _ (insert_user-Steps a (new_user c fresh r hash answers)))
            (λ done. signup_inserted-Steps fresh (new_user c fresh r hash answers) done)))
        (λ u. Steps-pure R order (refused Status.conflict))

  pub signup-Steps : (fresh : Fresh) (r : SignupRequest) → Steps R (signup a c fresh r)
  unfolding signup
  signup-Steps fresh r =
      Steps-if R order _ _ _
        (λ valid.
          Steps-option R order (hash_security_answers c r.security_answers) _ _
            (Steps-pure R order (refused Status.bad_request)) (signup_valid-Steps fresh r))
        (λ invalid. Steps-pure R order (refused Status.bad_request))

  admit_user-Steps : (fresh : Fresh) (u : User) → Steps R (admit_user a c fresh u)
  unfolding admit_user
  admit_user-Steps fresh u =
      Steps-then _ _
        (Steps-then _ _ (issue_session-Steps fresh u.id)
          (Steps-attempt R order _ (update_user-Steps a u.id (logged_in fresh.now) (λ v. refl))))
        (Steps-pure R order _)

  login_user-Steps :
      (fresh : Fresh) (password : String) (u : User) → Steps R (login_user a c fresh password u)
  unfolding login_user inc_login_failures
  login_user-Steps fresh password u =
      Steps-if R order u.disabled _ _ (λ h. Steps-pure R order (refused Status.forbidden))
        (λ h.
          Steps-if R order u.locked _ _ (λ h. Steps-pure R order (refused Status.locked))
            (λ h.
              Steps-if R order (not (c.check_password u.password_hash password)) _ _
                (λ h.
                  Steps-then _ _
                    (Steps-attempt R order _
                      (update_user-Steps a u.id one_more_login_failure (λ v. refl)))
                    (Steps-pure R order (refused Status.unauthorized)))
                (λ h. admit_user-Steps fresh u)))

  pub login-Steps :
      (fresh : Fresh) (username password : String) → Steps R (login a c fresh username password)
  unfolding login
  login-Steps fresh username password =
      Steps-if R order _ _ _
        (λ valid.
          Steps-found username _ _ (Steps-pure R order (refused Status.unauthorized))
            (login_user-Steps fresh password))
        (λ invalid. Steps-pure R order (refused Status.unauthorized))

  recovery_failed-Steps : (u : User) → Steps R (recovery_failed c a u)
  unfolding recovery_failed register_recovery_failure
  recovery_failed-Steps u =
      Steps-then _ _ (update_user-Steps a u.id (one_more_recovery_failure _) (λ v. refl))
        (Steps-pure R order _)

  set_recovered-Steps :
      (fresh : Fresh) (new_password : String) (u : User)
      → Steps R (set_recovered c a fresh new_password u)
  unfolding set_recovered invalidate_all_sessions delete_by_user
  set_recovered-Steps fresh new_password u =
      Steps-option R order (c.hash_password new_password) _ _ (Steps-raise R order crypto) (λ hash.
        Steps-then _ _
          (Steps-then _ _ (update_user-Steps a u.id (recovered fresh.now hash) (λ v. refl))
            (drop_sessions-Steps a _))
          (Steps-pure R order (answered tt)))

  recover_user-Steps :
      (fresh : Fresh) (r : RecoverRequest) (u : User) → Steps R (recover_user c a fresh r u)
  unfolding recover_user
  recover_user-Steps fresh r u =
      Steps-if R order u.disabled _ _ (λ h. Steps-pure R order (refused Status.not_found))
        (λ h.
          Steps-if R order (is_recovery_locked u) _ _
            (λ h. Steps-pure R order (refused Status.locked))
            (λ h.
              Steps-if R order (all_correct c u r.answers) _ _
                (λ h. set_recovered-Steps fresh r.new_password u) (λ h. recovery_failed-Steps u)))

  pub recover_password-Steps :
      (fresh : Fresh) (r : RecoverRequest) → Steps R (recover_password c a fresh r)
  unfolding recover_password
  recover_password-Steps fresh r =
      Steps-if R order (validate_password r.new_password) _ _
        (λ valid.
          Steps-found r.username _ _ (Steps-pure R order (refused Status.not_found))
            (recover_user-Steps fresh r))
        (λ invalid. Steps-pure R order (refused Status.bad_request))

  pub get_recovery_questions-Steps :
      (username : String) → Steps R (get_recovery_questions c a username)
  unfolding get_recovery_questions
  get_recovery_questions-Steps username =
      Steps-found username _ _ (Steps-pure R order (refused Status.not_found)) (λ u.
        Steps-if R order u.disabled _ _ (λ h. Steps-pure R order (refused Status.not_found))
          (λ h.
            Steps-if R order (is_recovery_locked u) _ _
              (λ h. Steps-pure R order (refused Status.locked)) (λ h. Steps-pure R order _)))
