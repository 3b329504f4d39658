-- ===== src/Access/Gate/Allowed.antt =====
-- Who passes the gate, and that whoever oversees a user has the tiers of that user.
use portfolio_dashboard.Prelude.{
  ◌≡◌, ◌⊎◌, true, false, Option, none, some, String, arith, string_eq, nat_eq,
}
use portfolio_dashboard.Access.{User, is_admin, is_super_admin, is_plain_user, oversees}
use portfolio_dashboard.Access.Gate.{
  Method, RouteTier, listed, is_open, is_gold_route, user_satisfies_tier, tier_for, route_key,
  onboarding_routes,
}

-- What a route asks of the user who is logged in.
abbrev pub IsEntitled : Method → String → User → Type 0
IsEntitled method path u =
    ((u.must_change_password ≡ false) ⊎ (listed (route_key method path) onboarding_routes ≡ true))
    × (user_satisfies_tier u (tier_for (route_key method path)) ≡ true)
    × ((is_gold_route path ≡ false) ⊎ (u.gold_enabled ≡ true))

abbrev pub IsAllowed : Method → String → Option User → Type 0
IsAllowed method path none = is_open method path ≡ true
IsAllowed method path (some u) = (is_open method path ≡ true) ⊎ IsEntitled method path u

-- Whoever oversees a user has every tier that the user has.
pub oversees-user_satisfies_tier :
    (u v : User) (tier : RouteTier)
    → oversees u v ≡ true
    → user_satisfies_tier v tier ≡ true
    → user_satisfies_tier u tier ≡ true
unfolding oversees user_satisfies_tier is_admin is_super_admin is_plain_user
oversees-user_satisfies_tier u v tier h k = ground arith
