-- ===== src/Account/Input.antt =====
-- The checks of a request in controllers/auth.go, and the catalogues of auth/questions.go and auth/regions.go.
use Prim.Native.Char.{code}
use Prim.Native.String.{[] as empty, ◌∷◌ as ◌then◌, len}
use portfolio_dashboard.Prelude.{
  ℕ, Bool, true, not, ◌&&◌, ◌||◌, Option, none, some, List, [], ◌∷◌, String, ◌==◌, string_eq, leb,
  nat_beq, exists, length, if◌then◌else◌,
}
use portfolio_dashboard.Access.{SecurityAnswer}
use portfolio_dashboard.Account.{Credentials}

-- `[A-Za-z0-9_-]`
abbrev pub is_username_char : ℕ → Bool
is_username_char n =
    (leb 65 n && leb n 90)
    || (leb 97 n && leb n 122)
    || (leb 48 n && leb n 57)
    || nat_beq n 95
    || nat_beq n 45

abbrev pub all_username_chars : String → Bool
all_username_chars empty = true
all_username_chars (c then rest) = is_username_char (code c) && all_username_chars rest

-- `validateUsername`: 3 to 32 characters, each of them one byte.
unfoldable pub validate_username : String → Bool
validate_username username =
    leb 3 (len username) && leb (len username) 32 && all_username_chars username

abbrev pub min_password_len : ℕ
min_password_len = 8

unfoldable pub validate_password : String → Bool
validate_password password = leb min_password_len (len password)

-- `questions`
abbrev pub questions : List (String × String)
questions =
    ("favourite_movie", "What is a movie you can watch over and over again?")
    ∷ ("favourite_book", "What is a book that left a lasting impression on you?")
    ∷ ("first_programming_lang", "What was the first programming language you learned?")
    ∷ ("favourite_editor", "Which code editor or IDE do you prefer?")
    ∷ ("favourite_food", "What dish would you never get tired of?")
    ∷ ("favourite_game", "What game did you spend the most hours playing?")
    ∷ ("dream_destination", "What place have you always wanted to visit?")
    ∷ ("favourite_cartoon", "Which cartoon do you remember most from childhood?")
    ∷ ("first_job", "What was your first paid job title?")
    ∷ ("favourite_subject", "Which school subject did you enjoy the most?")
    ∷ []

unfoldable pub valid_question_id : String → Bool
valid_question_id id = exists (λ q. q.0 == id) questions

abbrev prompt_in : String → List (String × String) → String
prompt_in id [] = ""
prompt_in id ((other, prompt) ∷ rest) = if other == id then prompt else prompt_in id rest

unfoldable pub question_prompt : String → String
question_prompt id = prompt_in id questions

-- `regions`
abbrev pub region_ids : List (String × String)
region_ids = ("india", "India") ∷ ("europe", "Europe") ∷ ("us", "US") ∷ []

unfoldable pub valid_region : String → Bool
valid_region id = exists (λ r. r.0 == id) region_ids

pub record SecurityAnswerInput : Type 0 where
  pub question_id : String
  pub answer : String

module _ (c : Credentials) where
  -- `validateName`
  unfoldable pub validate_name : String → Bool
  validate_name name =
      let trimmed = c.trim_space name in not (trimmed == "") && leb (len trimmed) 80

  unfoldable pub normalize_username : String → String
  normalize_username username = c.to_lower (c.trim_space username)

  unfoldable pub normalize_answer : String → String
  normalize_answer answer = c.to_lower (c.trim_space answer)

  unfoldable pub hash_answer : String → Option String
  unfolding normalize_answer
  hash_answer answer = c.hash_password (normalize_answer answer)

  unfoldable pub check_answer : String → String → Bool
  unfolding normalize_answer
  check_answer hash answer = c.check_password hash (normalize_answer answer)

  abbrev pub with_answer : SecurityAnswerInput → String → List SecurityAnswer → List SecurityAnswer
  with_answer a hash rest = record { question_id = a.question_id; answer_hash = hash } ∷ rest

  -- The loop of `hashSecurityAnswers`, with the question ids seen so far; none is an error.
  unfoldable pub hash_each : List String → List SecurityAnswerInput → Option (List SecurityAnswer)
  unfolding valid_question_id normalize_answer hash_answer
  hash_each seen [] = some []
  hash_each seen (a ∷ rest) =
      let hashed = hash_each (a.question_id ∷ seen) rest in
      if not (valid_question_id a.question_id)
        || exists (λ id. id == a.question_id) seen
        || (normalize_answer a.answer == "")
      then none
      else elim (hash_answer a.answer) [
        | none ↦ none
        | some hash ↦ elim hashed [ none ↦ none | some more ↦ some (with_answer a hash more) ]
      ]

  unfoldable pub hash_security_answers : List SecurityAnswerInput → Option (List SecurityAnswer)
  unfolding hash_each
  hash_security_answers answers = if nat_beq (length answers) 3 then hash_each [] answers else none
