-- ===== src/Account/Requests.antt =====
-- The requests that concern an account, as steps: what one handler, and what a sequence of them, does to the
-- stored accounts.
use portfolio_dashboard.Prelude.{Bool, Option, List, [], ◌∷◌, String}
use portfolio_dashboard.Access.Sessions.{Accounts, AccountTables}
use portfolio_dashboard.Exec.{World}
use portfolio_dashboard.Account.{Credentials}
use portfolio_dashboard.Account.Entry.{Fresh, SignupRequest, signup, login, logout}
use portfolio_dashboard.Account.Recovery.{RecoverRequest, recover_password, get_recovery_questions}
use portfolio_dashboard.Account.Own.{
  Caller, ChangePasswordRequest, UpdateProfileRequest, UpdateSecurityQuestionsRequest,
  OnboardingRequest, change_password, update_profile, update_security_questions,
  complete_onboarding,
}

-- A request to controllers/auth.go that reads or writes the stored accounts.
pub data AccountRequest : Type 0 where
  to_signup : Fresh → SignupRequest → AccountRequest
  to_login : Fresh → String → String → AccountRequest
  to_logout : Option String → AccountRequest
  to_recover : Fresh → RecoverRequest → AccountRequest
  to_list_questions : String → AccountRequest
  to_change_password : Fresh → Caller → ChangePasswordRequest → AccountRequest
  to_update_profile : Fresh → Caller → UpdateProfileRequest → AccountRequest
  to_update_questions : Fresh → Caller → UpdateSecurityQuestionsRequest → AccountRequest
  to_onboard : Fresh → Caller → OnboardingRequest → AccountRequest

module _ (a : Accounts) (is_session_id : String → Bool) (c : Credentials) where
  unfoldable pub after : AccountRequest → World (AccountTables a) → World (AccountTables a)
  unfolding signup login logout recover_password get_recovery_questions change_password
      update_profile update_security_questions complete_onboarding
  after (AccountRequest.to_signup fresh r) w = (signup a c fresh r w).1
  after (AccountRequest.to_login fresh username password) w =
      (login a c fresh username password w).1
  after (AccountRequest.to_logout sid) w = (logout a is_session_id sid w).1
  after (AccountRequest.to_recover fresh r) w = (recover_password c a fresh r w).1
  after (AccountRequest.to_list_questions username) w = (get_recovery_questions c a username w).1
  after (AccountRequest.to_change_password fresh caller r) w =
      (change_password a is_session_id c fresh caller r w).1
  after (AccountRequest.to_update_profile fresh caller r) w =
      (update_profile a is_session_id c fresh caller r w).1
  after (AccountRequest.to_update_questions fresh caller r) w =
      (update_security_questions a is_session_id c fresh caller r w).1
  after (AccountRequest.to_onboard fresh caller r) w =
      (complete_onboarding a is_session_id c fresh caller r w).1

  unfoldable pub after_all : List AccountRequest → World (AccountTables a) → World (AccountTables a)
  unfolding after
  after_all [] w = w
  after_all (r ∷ rest) w = after_all rest (after r w)
