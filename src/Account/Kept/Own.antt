-- ===== src/Account/Kept/Own.antt =====
-- The directory of users is kept by what users do to their own account, and by every sequence of requests.
use portfolio_dashboard.Prelude.{
  ◌≡◌, ◌∙◌, refl, Bool, false, Option, none, some, List, [], ◌∷◌, String, nat_eq, string_eq, ◌==◌,
}
use portfolio_dashboard.Errors.{Result, ok, err, is_duplicate, crypto, not_found}
use portfolio_dashboard.Clock.{Time}
use portfolio_dashboard.Domain.{ObjectId}
use portfolio_dashboard.Access.{User, SecurityAnswer}
use portfolio_dashboard.Access.Sessions.{Accounts, AccountTables, delete_session}
use portfolio_dashboard.Exec.{World, Exec, attempt}
use portfolio_dashboard.Exec.Steps.{
  Steps, Steps-pure, Steps-raise, Steps-if, Steps-bind, Steps-option, Steps-attempt, Steps-read,
  IsPreorder,
}
use portfolio_dashboard.Account.{Credentials, Reply, answered, refused, Status}
use portfolio_dashboard.Account.Input.{
  hash_security_answers, validate_password, validate_name, validate_username, normalize_username,
}
use portfolio_dashboard.Account.Store.{find_by_username, delete_by_user, delete_others, update_user}
use portfolio_dashboard.Account.Entry.{Fresh, destroy_session, invalidate_other_sessions, logout}
use portfolio_dashboard.Account.Own.{
  Caller, ChangePasswordRequest, UpdateProfileRequest, UpdateSecurityQuestionsRequest,
  OnboardingRequest, with_password, with_questions, onboarded, profile_patch, is_valid_if_given,
  with_name, with_username, confirmed, change_password_of, change_password, username_is_taken,
  profile_written, update_profile_of, update_profile, update_questions_of,
  update_security_questions, onboard, complete_onboarding_of, complete_onboarding,
}
use portfolio_dashboard.Account.Requests.{AccountRequest, after, after_all}
use portfolio_dashboard.Account.Directory.{
  IsDirectory, KeepsDirectory, KeepsDirectory-IsPreorder, update_user-Steps, drop_sessions-Steps,
  remove_session-Steps,
}
use portfolio_dashboard.Account.Kept.{
  Steps-then, signup-Steps, login-Steps, recover_password-Steps, get_recovery_questions-Steps,
}

module _ (a : Accounts) (c : Credentials) (is_session_id : String → Bool) where
  abbrev R : AccountTables a → AccountTables a → Type 0
  R = KeepsDirectory a

  abbrev order : IsPreorder R
  order = KeepsDirectory-IsPreorder a

  logout-Steps : (sid : Option String) → Steps R (logout a is_session_id sid)
  unfolding logout destroy_session delete_session
  logout-Steps none = Steps-then a c _ _ (Steps-pure R order tt) (Steps-pure R order (answered tt))
  logout-Steps (some sid) =
      Steps-then a c _ _
        (Steps-if R order (is_session_id sid) _ _ (λ h. remove_session-Steps a sid)
          (λ h. Steps-pure R order tt))
        (Steps-pure R order (answered tt))

  delete_others-Steps :
      (uid : ObjectId) (keep_id : String) → Steps R (delete_others a is_session_id uid keep_id)
  unfolding delete_others delete_by_user
  delete_others-Steps uid keep_id =
      Steps-if R order (keep_id == "") _ _ (λ h. drop_sessions-Steps a _)
        (λ h.
          Steps-if R order (is_session_id keep_id) _ _ (λ h. drop_sessions-Steps a _)
            (λ h. Steps-raise R order not_found))

  invalidate_other_sessions-Steps :
      (sid : Option String) (uid : ObjectId)
      → Steps R (invalidate_other_sessions a is_session_id sid uid)
  unfolding invalidate_other_sessions
  invalidate_other_sessions-Steps none uid = delete_others-Steps uid ""
  invalidate_other_sessions-Steps (some sid) uid = delete_others-Steps uid sid

  confirmed-Steps :
      {A : Type 0} (caller : Caller) (password : String)
      (handler : User → Exec (AccountTables a) (Reply A))
      → ((u : User) → Steps R (handler u))
      → Steps R (confirmed a is_session_id c caller password handler)
  unfolding confirmed
  confirmed-Steps caller password handler h =
      Steps-option R order caller.user _ _ (Steps-pure R order (refused Status.unauthorized)) (λ u.
        Steps-if R order (c.check_password u.password_hash password) _ _ (λ k. h u)
          (λ k. Steps-pure R order (refused Status.unauthorized)))

  change_password-Steps :
      (fresh : Fresh) (caller : Caller) (r : ChangePasswordRequest)
      → Steps R (change_password a is_session_id c fresh caller r)
  unfolding change_password change_password_of
  change_password-Steps fresh caller r = confirmed-Steps caller r.current_password _ (λ u.
      Steps-if R order (validate_password r.new_password) _ _
        (λ valid.
          Steps-option R order (c.hash_password r.new_password) _ _ (Steps-raise R order crypto)
            (λ hash.
              Steps-then a c _ _
                (Steps-then a c _ _
                  (update_user-Steps a u.id (with_password fresh.now hash) (λ v. refl))
                  (invalidate_other_sessions-Steps caller.session_id u.id))
                (Steps-pure R order (answered tt))))
        (λ invalid. Steps-pure R order (refused Status.bad_request)))

  update_security_questions-Steps :
      (fresh : Fresh) (caller : Caller) (r : UpdateSecurityQuestionsRequest)
      → Steps R (update_security_questions a is_session_id c fresh caller r)
  unfolding update_security_questions update_questions_of
  update_security_questions-Steps fresh caller r = confirmed-Steps caller r.current_password _ (λ u.
      Steps-option R order (hash_security_answers c r.security_answers) _ _
        (Steps-pure R order (refused Status.bad_request))
        (λ hashed.
          Steps-then a c _ _
            (update_user-Steps a u.id (with_questions fresh.now hashed) (λ v. refl))
            (Steps-pure R order (answered tt))))

  onboard-Steps :
      (fresh : Fresh) (caller : Caller) (password : String) (answers : List SecurityAnswer)
      (u : User)
      → Steps R (onboard a is_session_id c fresh caller password answers u)
  unfolding onboard
  onboard-Steps fresh caller password answers u =
      Steps-option R order (c.hash_password password) _ _ (Steps-raise R order crypto) (λ hash.
        Steps-then a c _ _
          (Steps-then a c _ _
            (update_user-Steps a u.id (onboarded fresh.now hash answers) (λ v. refl))
            (invalidate_other_sessions-Steps caller.session_id u.id))
          (Steps-pure R order _))

  complete_onboarding-Steps :
      (fresh : Fresh) (caller : Caller) (r : OnboardingRequest)
      → Steps R (complete_onboarding a is_session_id c fresh caller r)
  unfolding complete_onboarding complete_onboarding_of
  complete_onboarding-Steps fresh caller r = confirmed-Steps caller r.current_password _ (λ u.
      Steps-if R order (validate_password r.new_password) _ _
        (λ valid.
          Steps-option R order (hash_security_answers c r.security_answers) _ _
            (Steps-pure R order (refused Status.bad_request))
            (λ answers. onboard-Steps fresh caller r.new_password answers u))
        (λ invalid. Steps-pure R order (refused Status.bad_request)))

  username_is_taken-Steps :
      (username : Option String) (u : User)
      → Steps R (username_is_taken a is_session_id c username u)
  unfolding username_is_taken find_by_username
  username_is_taken-Steps none u = Steps-pure R order false
  username_is_taken-Steps (some username) u =
      Steps-if R order (normalize_username c username == u.username) _ _
        (λ h. Steps-pure R order false)
        (λ h.
          Steps-bind R order (find_by_username a c (normalize_username c username)) _
            (Steps-read R order _) (λ existing. Steps-pure R order _))

  profile_written-Steps :
      (u : User) (r : Result (Unit {0})) → Steps R (profile_written a is_session_id c u r)
  unfolding profile_written
  profile_written-Steps u (ok done) = Steps-pure R order (answered u)
  profile_written-Steps u (err e) =
      Steps-if R order (is_duplicate e) _ _ (λ h. Steps-pure R order (refused Status.conflict))
        (λ h. Steps-raise R order e)

  with_name-id : (name : Option String) (u : User) → (with_name c name u).id ≡ u.id
  with_name-id none u = refl
  with_name-id (some name) u = refl

  with_username-id : (name : Option String) (u : User) → (with_username c name u).id ≡ u.id
  unfolding with_username
  with_username-id none u = refl
  with_username-id (some name) u = refl

  profile_patch-id :
      (now : Time) (r : UpdateProfileRequest) (u : User) → (profile_patch c now r u).id ≡ u.id
  unfolding profile_patch
  profile_patch-id now r u =
      with_username-id r.username (with_name c r.name (record u { updated_at = now }))
      ∙ with_name-id r.name (record u { updated_at = now })

  update_profile-Steps :
      (fresh : Fresh) (caller : Caller) (r : UpdateProfileRequest)
      → Steps R (update_profile a is_session_id c fresh caller r)
  unfolding update_profile update_profile_of
  update_profile-Steps fresh caller r = confirmed-Steps caller r.current_password _ (λ u.
      Steps-if R order (is_valid_if_given c (validate_name c) r.name) _ _
        (λ h.
          Steps-if R order (is_valid_if_given c validate_username r.username) _ _
            (λ h.
              Steps-bind R order (username_is_taken a is_session_id c r.username u) _
                (username_is_taken-Steps r.username u)
                (λ taken.
                  Steps-if R order taken _ _ (λ h. Steps-pure R order (refused Status.conflict))
                    (λ h.
                      Steps-bind R order
                        (attempt (update_user a u.id (profile_patch c fresh.now r))) _
                        (Steps-attempt R order _ (
                          update_user-Steps a u.id (profile_patch c fresh.now r)
                            (profile_patch-id fresh.now r)))
                        (profile_written-Steps _))))
            (λ h. Steps-pure R order (refused Status.bad_request)))
        (λ h. Steps-pure R order (refused Status.bad_request)))

  after-Steps :
      (r : AccountRequest) (w : World (AccountTables a))
      → R w.stored (after a is_session_id c r w).stored
  unfolding after
  after-Steps (AccountRequest.to_signup fresh r) w = (signup-Steps a c fresh r).at w
  after-Steps (AccountRequest.to_login fresh username password) w =
      (login-Steps a c fresh username password).at w
  after-Steps (AccountRequest.to_logout sid) w = (logout-Steps sid).at w
  after-Steps (AccountRequest.to_recover fresh r) w = (recover_password-Steps a c fresh r).at w
  after-Steps (AccountRequest.to_list_questions username) w =
      (get_recovery_questions-Steps a c username).at w
  after-Steps (AccountRequest.to_change_password fresh caller r) w =
      (change_password-Steps fresh caller r).at w
  after-Steps (AccountRequest.to_update_profile fresh caller r) w =
      (update_profile-Steps fresh caller r).at w
  after-Steps (AccountRequest.to_update_questions fresh caller r) w =
      (update_security_questions-Steps fresh caller r).at w
  after-Steps (AccountRequest.to_onboard fresh caller r) w =
      (complete_onboarding-Steps fresh caller r).at w

  -- If every user is stored under their own id and no two have the same username, then so it is after any
  -- sequence of requests to the account routes, whatever the requests say and whichever calls of the
  -- database fail.
  pub after_all-IsDirectory :
      (rs : List AccountRequest) (w : World (AccountTables a))
      → IsDirectory a w.stored
      → IsDirectory a (after_all a is_session_id c rs w).stored
  unfolding after_all
  after_all-IsDirectory [] w d = d
  after_all-IsDirectory (r ∷ rs) w d =
      after_all-IsDirectory rs (after a is_session_id c r w) (after-Steps r w d)
