-- ===== src/Examples/Access.antt =====
-- A user, an admin of the same region, and a login whose session has ten days left.
use portfolio_dashboard.Prelude.{
  ◌≡◌, refl, Bool, true, false, none, some, [], ◌∷◌, ◌*◌, String, string_eq, nat_eq,
}
use portfolio_dashboard.Prelude.Assoc.{lookup}
use portfolio_dashboard.Clock.{day_length}
use portfolio_dashboard.Access.{Role, User, Session, oversees, is_admin, is_plain_user}
use portfolio_dashboard.Access.Gate.{
  Method, Verdict, gate, user_satisfies_tier, route_key, tier_for, is_gold_route,
  is_public_spec_route, public_routes, super_admin_routes, admin_routes,
}
use portfolio_dashboard.Access.Gate.Allowed.{oversees-user_satisfies_tier}
use portfolio_dashboard.Access.Sessions.{
  Accounts, AccountTables, load_session, get_session, load_live, load_user, find_user,
  refresh_session, set_expiry,
}
use portfolio_dashboard.Access.Sessions.Login.{
  IsLogin, IsFresh, load_session-IsLogin, load_session_slides,
}
use portfolio_dashboard.Exec.{healthy}
use portfolio_dashboard.Examples.Memory.{memory}

abbrev pub person : Role → User
person role = record {
  id = 7;
  username = "asha";
  username_display = "Asha";
  name = "Asha";
  password_hash = "";
  role = role;
  region = "india";
  disabled = false;
  locked = false;
  gold_enabled = false;
  premium = false;
  delta_from_history = false;
  login_failures = 0;
  security_question_failures = 0;
  must_change_password = false;
  security_questions = [];
  created_at = 0;
  updated_at = 0;
  last_login_at = none;
}

admin_passes : gate Method.get "/api/admin/users" (some (person Role.admin)) ≡ Verdict.pass
unfolding gate route_key tier_for is_gold_route is_public_spec_route public_routes
    super_admin_routes admin_routes user_satisfies_tier is_admin
admin_passes = refl

user_stays_out : gate Method.get "/api/admin/users" (some (person Role.user)) ≡ Verdict.forbidden
unfolding gate route_key tier_for is_gold_route is_public_spec_route public_routes
    super_admin_routes admin_routes user_satisfies_tier is_admin
user_stays_out = refl

gold_is_hidden : gate Method.get "/api/gold/prices" (some (person Role.admin)) ≡ Verdict.not_found
unfolding gate route_key tier_for is_gold_route is_public_spec_route public_routes
    super_admin_routes admin_routes user_satisfies_tier
gold_is_hidden = refl

overseers_tier : user_satisfies_tier (person Role.admin) (tier_for "GET /api/holdings") ≡ true
unfolding oversees is_plain_user tier_for super_admin_routes admin_routes user_satisfies_tier
overseers_tier =
    oversees-user_satisfies_tier (person Role.admin) (person Role.user)
      (tier_for "GET /api/holdings") refl refl

abbrev pub login_session : Session
login_session = record {
  id = "abc";
  user_id = 7;
  created_at = 0;
  expires_at = 30 * day_length;
  user_agent = "";
}

abbrev pub accounts : Accounts
accounts = record { sessions = memory; users = memory }

abbrev tables : AccountTables accounts
tables = record { sessions = ("abc", login_session) ∷ []; users = (7, person Role.user) ∷ [] }

abbrev pub any_id : String → Bool
any_id id = true

load_session-IsLogin_example :
    IsLogin accounts any_id (20 * day_length) "abc" tables (person Role.user) "abc"
unfolding load_session get_session load_live load_user find_user refresh_session set_expiry lookup
load_session-IsLogin_example =
    load_session-IsLogin accounts any_id (20 * day_length) "abc" (healthy tables) (person Role.user)
      "abc" refl

load_session_slides_example :
    IsFresh accounts any_id
      (20 * day_length)
      "abc"
      (load_session accounts any_id (20 * day_length) (some "abc") (healthy tables)).1.stored
unfolding load_session get_session load_live load_user find_user refresh_session set_expiry lookup
load_session_slides_example =
    load_session_slides accounts any_id (20 * day_length) login_session tables (person Role.user)
      "abc" refl refl
