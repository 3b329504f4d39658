-- ===== src/Account/Recovery.antt =====
-- controllers/auth.go: the recovery of a password by the answers to the security questions.
use portfolio_dashboard.Prelude.{
  ℕ, ◌+◌, Bool, true, false, ◌&&◌, ◌||◌, none, some, List, [], ◌∷◌, String, string_eq, leb, nat_beq,
  length, map, if◌then◌else◌,
}
use portfolio_dashboard.Prelude.Assoc.{Assoc, lookup, insert}
use portfolio_dashboard.Clock.{Time}
use portfolio_dashboard.Errors.{crypto}
use portfolio_dashboard.Access.{User, SecurityAnswer}
use portfolio_dashboard.Access.Sessions.{Accounts, AccountTables}
use portfolio_dashboard.Exec.{Exec, pure, raise, ◌>>=◌, ◌>>◌}
use portfolio_dashboard.Account.{Credentials, Reply, answered, refused, Status}
use portfolio_dashboard.Account.Input.{
  SecurityAnswerInput, validate_password, check_answer, question_prompt,
}
use portfolio_dashboard.Account.Store.{find_by_username, update_user, register_recovery_failure}
use portfolio_dashboard.Account.Entry.{Fresh, invalidate_all_sessions}

abbrev pub recovery_max_failures : ℕ
recovery_max_failures = 3

pub record RecoverRequest : Type 0 where
  pub username : String
  pub answers : List SecurityAnswerInput
  pub new_password : String

-- The loop that fills `given`: a later answer to the same question replaces an earlier one.
unfoldable pub given_from : Assoc String String → List SecurityAnswerInput → Assoc String String
unfolding insert
given_from given [] = given
given_from given (a ∷ rest) = given_from (insert a.question_id a.answer given) rest

unfoldable pub is_recovery_locked : User → Bool
is_recovery_locked u = u.locked || leb recovery_max_failures u.security_question_failures

abbrev pub recovered : Time → String → User → User
recovered now hash u = record u {
  password_hash = hash;
  security_question_failures = 0;
  updated_at = now;
}

module _ (c : Credentials) where
  unfoldable pub answers_question : Assoc String String → SecurityAnswer → Bool
  unfolding lookup check_answer
  answers_question given q = elim (lookup q.question_id given) [
    | none ↦ false
    | some answer ↦ check_answer c q.answer_hash answer
  ]

  -- The loop over the questions of the account.
  unfoldable pub answers_each : Assoc String String → List SecurityAnswer → Bool
  unfolding answers_question
  answers_each given [] = true
  answers_each given (q ∷ rest) = answers_question given q && answers_each given rest

  -- `allCorrect`
  unfoldable pub all_correct : User → List SecurityAnswerInput → Bool
  unfolding given_from answers_each
  all_correct u answers =
      nat_beq (length u.security_questions) 3
      && answers_each (given_from [] answers) u.security_questions

  module _ (a : Accounts) where
    unfoldable pub recovery_failed : User → Exec (AccountTables a) (Reply (Unit {0}))
    unfolding register_recovery_failure
    recovery_failed u =
        let locked = leb recovery_max_failures (u.security_question_failures + 1) in
        register_recovery_failure a u.id locked
        >> pure (refused (if locked then Status.locked else Status.unauthorized))

    unfoldable pub set_recovered : Fresh → String → User → Exec (AccountTables a) (Reply (Unit {0}))
    unfolding update_user invalidate_all_sessions
    set_recovered fresh new_password u = elim (c.hash_password new_password) [
      | none ↦ raise crypto
      | some hash ↦
          update_user a u.id (recovered fresh.now hash)
          >> invalidate_all_sessions a u.id
          >> pure (answered tt)
    ]

    -- Once the account is found.
    unfoldable pub recover_user :
        Fresh → RecoverRequest → User → Exec (AccountTables a) (Reply (Unit {0}))
    unfolding is_recovery_locked all_correct recovery_failed set_recovered
    recover_user fresh r u =
        if u.disabled
        then pure (refused Status.not_found)
        else if is_recovery_locked u
        then pure (refused Status.locked)
        else if all_correct u r.answers
        then set_recovered fresh r.new_password u
        else recovery_failed u

    -- `RecoverPassword`
    unfoldable pub recover_password :
        Fresh → RecoverRequest → Exec (AccountTables a) (Reply (Unit {0}))
    unfolding validate_password find_by_username recover_user
    recover_password fresh r =
        if validate_password r.new_password
        then (do
          found ← find_by_username a c r.username
          elim found [ none ↦ pure (refused Status.not_found) | some u ↦ recover_user fresh r u ])
        else pure (refused Status.bad_request)

    -- `GetRecoveryQuestions`: the ids and prompts.
    unfoldable pub get_recovery_questions :
        String → Exec (AccountTables a) (Reply (List (String × String)))
    unfolding find_by_username is_recovery_locked question_prompt
    get_recovery_questions username = do
      found ← find_by_username a c username
      elim found [
        | none ↦ pure (refused Status.not_found)
        | some u ↦
            if u.disabled
            then pure (refused Status.not_found)
            else if is_recovery_locked u
            then pure (refused Status.locked)
            else pure (
                answered
                  (map (λ q. (q.question_id, question_prompt q.question_id)) u.security_questions))
      ]
