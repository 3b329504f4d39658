-- ===== src/Account.antt =====
-- controllers/auth.go and controllers/session.go: the requests that concern an account. A handler's answer is
-- beside its errors, which the server answers with status 500.
pub mod Input
pub mod Store
pub mod Entry
pub mod Recovery
pub mod Own
pub mod Requests
pub mod Directory
pub mod Kept
pub mod Found
pub mod Admitted
pub mod Lockout
pub mod Answers
pub mod Recovered
pub mod RoundTrip
use portfolio_dashboard.Prelude.{◌≡◌, Bool, true, Option, some, String}

-- The statuses 400, 401, 403, 404, 409 and 423.
pub data Status : Type 0 where
  bad_request unauthorized forbidden not_found conflict locked : Status

pub data Reply (A : Type 0) : Type 0 where
  answered : A → Reply A
  refused : Status → Reply A

-- bcrypt, and the functions on texts that the program takes from Go's library. A hash may fail (a password of
-- more than 72 bytes); a hash matches the password that it was made from.
pub record Credentials : Type 0 where
  pub hash_password : String → Option String
  pub check_password : String → String → Bool
  pub trim_space : String → String
  pub to_lower : String → String
  pub check_password-hash_password :
      (password hash : String)
      → hash_password password ≡ some hash
      → check_password hash password ≡ true
