-- ===== src/Examples/Accounts.antt =====
-- An account with three security questions: signups, logins and recoveries.
use portfolio_dashboard.Prelude.{
  ◌≡◌, refl, true, false, ◌==◌, ==_iff, some, List, [], ◌∷◌, String, string_eq, nat_eq, arith,
}
use portfolio_dashboard.Prelude.Assoc.{lookup, insert}
use portfolio_dashboard.Errors.{ok}
use portfolio_dashboard.Access.{Role, User, SecurityAnswer}
use portfolio_dashboard.Access.Sessions.{AccountTables}
use portfolio_dashboard.Exec.{healthy}
use portfolio_dashboard.Account.{Credentials, answered, refused, Status}
use portfolio_dashboard.Account.Input.{
  SecurityAnswerInput, validate_username, validate_name, validate_password, valid_region,
  valid_question_id, normalize_username, normalize_answer, hash_answer, check_answer, hash_each,
  hash_security_answers,
}
use portfolio_dashboard.Account.Store.{
  inserted, insert_user, patched_user, update_user, find_by_username, inserted_session,
  insert_session, delete_by_user,
}
use portfolio_dashboard.Account.Entry.{
  Fresh, SignupRequest, new_user, issue_session, invalidate_all_sessions, signup_inserted,
  signup_valid, signup, admit_user, login_user, login,
}
use portfolio_dashboard.Account.Recovery.{
  RecoverRequest, given_from, is_recovery_locked, answers_question, answers_each, all_correct,
  set_recovered, recover_user, recover_password,
}
use portfolio_dashboard.Account.Requests.{AccountRequest, after_all}
use portfolio_dashboard.Account.Directory.{IsDirectory}
use portfolio_dashboard.Account.Kept.Own.{after_all-IsDirectory}
use portfolio_dashboard.Account.Admitted.{IsAdmitted, HasSession, login-IsAdmitted}
use portfolio_dashboard.Account.Lockout.{after_recoveries, after_recoveries-locked}
use portfolio_dashboard.Account.Recovered.{MayRecover, HasNoSession, recover_password-ok}
use portfolio_dashboard.Account.RoundTrip.{login-signup}
use portfolio_dashboard.Examples.Access.{person, accounts, login_session as session, any_id}

pub check_own : (password hash : String) → some password ≡ some hash → (hash == password) ≡ true
check_own password hash h = ground (arith, ==_iff hash password)

-- A hash that is the text itself.
abbrev pub plain : Credentials
plain = record {
  hash_password = some;
  check_password = λ hash password. hash == password;
  trim_space = λ s. s;
  to_lower = λ s. s;
  check_password-hash_password = check_own;
}

abbrev answer_to : String → String → SecurityAnswer
answer_to question answer = record { question_id = question; answer_hash = answer }

abbrev input_to : String → String → SecurityAnswerInput
input_to question answer = record { question_id = question; answer = answer }

abbrev pub asha : User
asha = record (person Role.user) {
  password_hash = "password-1";
  security_questions =
      answer_to "first_job" "clerk"
      ∷ answer_to "favourite_food" "dosa"
      ∷ answer_to "favourite_game" "chess"
      ∷ [];
}

abbrev tables : AccountTables accounts
tables = record { sessions = ("abc", session) ∷ []; users = (7, asha) ∷ [] }

tables-IsDirectory : IsDirectory accounts tables
unfolding lookup
tables-IsDirectory = record {
  keyed = λ k u h. ground arith;
  unique = λ k j u v h g e. ground arith;
}

abbrev fresh : Fresh
fresh = record { now = 5; user_id = 8; session_id = some "new"; user_agent = "" }

abbrev right_answers : List SecurityAnswerInput
right_answers =
    input_to "first_job" "clerk"
    ∷ input_to "favourite_food" "dosa"
    ∷ input_to "favourite_game" "chess"
    ∷ []

abbrev recovery : List SecurityAnswerInput → RecoverRequest
recovery answers = record { username = "asha"; answers = answers; new_password = "password-2" }

username_is_valid : validate_username "Asha-_9" ≡ true
unfolding validate_username
username_is_valid = refl

username_has_a_space : validate_username "Asha 9" ≡ false
unfolding validate_username
username_has_a_space = refl

username_is_short : validate_username "As" ≡ false
unfolding validate_username
username_is_short = refl

after_all-IsDirectory_example :
    IsDirectory accounts
      (after_all accounts any_id plain
        (AccountRequest.to_login fresh "asha" "password-1"
          ∷ AccountRequest.to_recover fresh (recovery [])
          ∷ [])
        (healthy tables)).stored
after_all-IsDirectory_example =
    after_all-IsDirectory accounts plain any_id
      (AccountRequest.to_login fresh "asha" "password-1"
        ∷ AccountRequest.to_recover fresh (recovery [])
        ∷ [])
      (healthy tables) tables-IsDirectory

login-IsAdmitted_example :
    (u : User) × IsAdmitted accounts plain tables "asha" "password-1" u
    × (record asha { last_login_at = some 5 } ≡ record u { last_login_at = some 5 })
    × HasSession accounts plain
        (login accounts plain fresh "asha" "password-1" (healthy tables)).1.stored
        fresh
        u.id
unfolding login validate_username find_by_username normalize_username login_user admit_user
    issue_session insert_session inserted_session update_user patched_user lookup insert
login-IsAdmitted_example =
    login-IsAdmitted accounts plain fresh "asha" "password-1" (healthy tables)
      (record asha { last_login_at = some 5 }) refl

-- Three requests without answers, and then one with the right answers.
abbrev wrong_tries : List (Fresh × RecoverRequest)
wrong_tries = (fresh, recovery []) ∷ (fresh, recovery []) ∷ (fresh, recovery []) ∷ []

after_recoveries-locked_example :
    (v : User) × (lookup 7 (after_recoveries accounts plain wrong_tries tables).users ≡ some v)
    × (v.password_hash ≡ "password-1")
    × (recover_password plain accounts fresh
          (recovery right_answers)
          (healthy (after_recoveries accounts plain wrong_tries tables))
        ≡ (
          ok (refused Status.locked),
          healthy (after_recoveries accounts plain wrong_tries tables),
        ))
unfolding lookup normalize_username validate_password all_correct given_from answers_each
    answers_question
after_recoveries-locked_example =
    after_recoveries-locked accounts plain wrong_tries (fresh, recovery right_answers) asha 7 tables
      tables-IsDirectory refl refl
      (((refl, refl), refl), (((refl, refl), refl), (((refl, refl), refl), tt))) (omega arith)
      (refl, refl)

recover_password-ok_example :
    (u : User) × MayRecover accounts plain tables (recovery right_answers) u
    × HasNoSession accounts plain
        (recover_password plain accounts fresh (recovery right_answers) (healthy tables)).1.stored
        u.id
    × (hash : String) × (some "password-2" ≡ some hash)
    × (lookup u.id
          (recover_password plain accounts fresh
            (recovery right_answers)
            (healthy tables)).1.stored.users
        ≡ some (record u { password_hash = hash; security_question_failures = 0; updated_at = 5 }))
unfolding lookup insert recover_password validate_password find_by_username normalize_username
    recover_user is_recovery_locked all_correct given_from answers_each answers_question
    check_answer normalize_answer set_recovered update_user patched_user invalidate_all_sessions
    delete_by_user
recover_password-ok_example =
    recover_password-ok accounts plain fresh (recovery right_answers) (healthy tables)
      tables-IsDirectory refl

abbrev newcomer : SignupRequest
newcomer = record {
  username = "ravi";
  name = "Ravi";
  password = "password-3";
  region = "india";
  security_answers = right_answers;
}

abbrev ravi : User
ravi = record (person Role.user) {
  id = 8;
  username = "ravi";
  username_display = "ravi";
  name = "Ravi";
  password_hash = "password-3";
  security_questions = asha.security_questions;
  created_at = 5;
  updated_at = 5;
}

login-signup_example :
    (login accounts plain
      (record fresh { session_id = some "next" })
      "ravi"
      "password-3"
      (healthy (signup accounts plain fresh newcomer (healthy tables)).1.stored)).0
    ≡ ok (answered (record ravi { last_login_at = some 5 }))
unfolding lookup insert signup validate_username validate_name validate_password valid_region
    hash_security_answers hash_each valid_question_id normalize_answer hash_answer signup_valid
    find_by_username normalize_username insert_user inserted new_user signup_inserted issue_session
    insert_session inserted_session
login-signup_example =
    login-signup accounts plain fresh (record fresh { session_id = some "next" }) newcomer ravi
      (healthy tables) "next" tables-IsDirectory refl refl refl
