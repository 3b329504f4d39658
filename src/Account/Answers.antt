-- ===== src/Account/Answers.antt =====
-- controllers/auth.go: which answers a recovery takes as right.
use portfolio_dashboard.Prelude.{
  ◌≡◌, refl, true, none, some, List, [], ◌∷◌, Option, String, string_eq, ◌==◌, arith, length, All,
  if◌then◌else◌, Option-cases, inl, inr,
}
use portfolio_dashboard.Prelude.Assoc.{Assoc, lookup, insert, lookup-insert}
use portfolio_dashboard.Access.{User, SecurityAnswer}
use portfolio_dashboard.Account.{Credentials}
use portfolio_dashboard.Account.Input.{SecurityAnswerInput, check_answer, normalize_answer}
use portfolio_dashboard.Account.Recovery.{given_from, answers_question, answers_each, all_correct}

-- The last answer of a request to a question.
unfoldable pub answer_to : String → List SecurityAnswerInput → Option String
answer_to id [] = none
answer_to id (a ∷ rest) =
    let later = answer_to id rest in
    elim later [
      | some answer ↦ some answer
      | none ↦ if a.question_id == id then some a.answer else none
    ]

lookup-given_from :
    (id : String) (given : Assoc String String) (answers : List SecurityAnswerInput)
    → lookup id (given_from given answers)
      ≡ elim (answer_to id answers) [ some answer ↦ some answer | none ↦ lookup id given ]
unfolding given_from answer_to
lookup-given_from id given [] = refl
lookup-given_from id given (a ∷ rest) = ground (
  arith,
  lookup-given_from id (insert a.question_id a.answer given) rest,
  lookup-insert a.question_id id a.answer given,
)

module _ (c : Credentials) where
  -- The last answer given to the question, trimmed and in lower case, matches the stored hash.
  abbrev pub IsAnswered : List SecurityAnswerInput → SecurityAnswer → Type 0
  IsAnswered answers q =
      (answer : String) × (answer_to q.question_id answers ≡ some answer)
      × (c.check_password q.answer_hash (c.to_lower (c.trim_space answer)) ≡ true)

  -- The account has three questions, and each is answered.
  abbrev pub HasAnswered : User → List SecurityAnswerInput → Type 0
  HasAnswered u answers =
      (length u.security_questions ≡ 3) × All (IsAnswered answers) u.security_questions

  answers_question-IsAnswered :
      (answers : List SecurityAnswerInput) (q : SecurityAnswer)
      → answers_question c (given_from [] answers) q ≡ true
      → IsAnswered answers q
  unfolding answers_question check_answer normalize_answer lookup
  answers_question-IsAnswered answers q h = elim (Option-cases (answer_to q.question_id answers)) [
    | inl missing ↦ absurd (ground (arith, lookup-given_from q.question_id [] answers))
    | inr (answer, given) ↦
        (answer, given, ground (arith, lookup-given_from q.question_id [] answers))
  ]

  answers_each-All :
      (answers : List SecurityAnswerInput) (qs : List SecurityAnswer)
      → answers_each c (given_from [] answers) qs ≡ true
      → All (IsAnswered answers) qs
  unfolding answers_each
  answers_each-All answers [] h = tt
  answers_each-All answers (q ∷ qs) h = (
    answers_question-IsAnswered answers q (ground arith),
    answers_each-All answers qs (ground arith),
  )

  pub all_correct-HasAnswered :
      (u : User) (answers : List SecurityAnswerInput)
      → all_correct c u answers ≡ true
      → HasAnswered u answers
  unfolding all_correct
  all_correct-HasAnswered u answers h =
      (ground arith, answers_each-All answers u.security_questions (ground arith))
