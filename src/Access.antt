-- ===== src/Access.antt =====
-- domain/user.go and domain/session.go: accounts, roles and login sessions.
pub mod Gate
pub mod Sessions
use portfolio_dashboard.Prelude.{
  ℕ, ◌*◌, Bool, true, false, not, ◌&&◌, ◌||◌, Option, List, String, ◌==◌, string_eq, nat_beq,
}
use portfolio_dashboard.Clock.{Time, day_length}
use portfolio_dashboard.Domain.{ObjectId}

-- `other` is any text that is none of the three roles.
pub data Role : Type 0 where
  user admin super_admin other : Role

pub record SecurityAnswer : Type 0 where
  pub question_id : String
  pub answer_hash : String

pub record User : Type 0 where
  pub id : ObjectId
  pub username : String
  pub username_display : String
  pub name : String
  pub password_hash : String
  pub role : Role
  pub region : String
  pub disabled : Bool
  pub locked : Bool
  pub gold_enabled : Bool
  pub premium : Bool
  pub delta_from_history : Bool
  pub login_failures : ℕ
  pub security_question_failures : ℕ
  pub must_change_password : Bool
  pub security_questions : List SecurityAnswer
  pub created_at : Time
  pub updated_at : Time
  pub last_login_at : Option Time

abbrev pub session_ttl : Time
session_ttl = 30 * day_length

pub record Session : Type 0 where
  pub id : String
  pub user_id : ObjectId
  pub created_at : Time
  pub expires_at : Time
  pub user_agent : String

unfoldable pub is_super_admin : User → Bool
is_super_admin u = elim u.role [ Role.super_admin ↦ true | _ ↦ false ]

unfoldable pub is_admin : User → Bool
is_admin u = elim u.role [ Role.admin ↦ true | Role.super_admin ↦ true | _ ↦ false ]

unfoldable pub is_plain_user : User → Bool
is_plain_user u = elim u.role [ Role.user ↦ true | _ ↦ false ]

-- `Oversees`
unfoldable pub oversees : User → User → Bool
unfolding is_plain_user
oversees u target = elim u.role [
  | Role.super_admin ↦ not (nat_beq target.id u.id)
  | Role.admin ↦ is_plain_user target && target.region == u.region
  | _ ↦ false
]
