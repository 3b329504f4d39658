-- ===== src/Access/Gate.antt =====
-- httpserver/auth.go: which requests pass the gate. A route is a method and the pattern that the router matched.
pub mod Allowed
use Prim.Native.String.{◌++◌}
use text.Mathlib.Text.{starts_with}
use portfolio_dashboard.Prelude.{
  Bool, true, false, not, ◌&&◌, ◌||◌, Option, none, some, List, [], ◌∷◌, String, ◌==◌, string_eq,
  exists, if◌then◌else◌,
}
use portfolio_dashboard.Access.{User, is_admin, is_super_admin}

-- The keys of the tables, "METHOD pattern".
unfoldable pub public_routes : List String
public_routes =
    "GET /api/healthz" ∷ "GET /api/branding" ∷ "GET /api/regions"
    ∷ "GET /api/auth/security-questions" ∷ "POST /api/auth/signup" ∷ "POST /api/auth/login"
    ∷ "POST /api/auth/recover" ∷ "POST /api/auth/recover/questions" ∷ []

unfoldable pub onboarding_routes : List String
onboarding_routes = "GET /api/auth/me" ∷ "POST /api/auth/logout" ∷ "POST /api/auth/onboarding" ∷ []

unfoldable pub super_admin_routes : List String
super_admin_routes =
    "GET /api/admin/admins" ∷ "POST /api/admin/users/:id/promote"
    ∷ "POST /api/admin/users/:id/demote" ∷ "PUT /api/admin/users/:id/region"
    ∷ "PUT /api/admin/users/:id/gold" ∷ "PUT /api/admin/users/:id/premium"
    ∷ "PUT /api/admin/users/:id/delta-from-history" ∷ "PUT /api/admin/branding" ∷ []

unfoldable pub admin_routes : List String
admin_routes =
    "GET /api/admin/users" ∷ "GET /api/admin/users/:id" ∷ "DELETE /api/admin/users/:id"
    ∷ "POST /api/admin/users/:id/hide" ∷ "POST /api/admin/users/:id/reactivate"
    ∷ "POST /api/admin/users/:id/reset-lockout" ∷ "GET /api/admin/users/:id/holdings"
    ∷ "POST /api/admin/users/:id/holdings" ∷ "PUT /api/admin/users/:id/holdings/:holdingId"
    ∷ "DELETE /api/admin/users/:id/holdings/:holdingId" ∷ "GET /api/admin/users/:id/prices"
    ∷ "GET /api/admin/users/:id/summary" ∷ "GET /api/admin/users/:id/transactions"
    ∷ "GET /api/admin/users/:id/dividends" ∷ "POST /api/admin/users/:id/dividends/import/preview"
    ∷ "POST /api/admin/users/:id/dividends/import"
    ∷ "POST /api/admin/users/:id/transactions/import/preview"
    ∷ "POST /api/admin/users/:id/transactions/import" ∷ "DELETE /api/admin/users/:id/dividends"
    ∷ "GET /api/admin/users/:id/holdings/:holdingId/transactions"
    ∷ "POST /api/admin/users/:id/holdings/:holdingId/transactions"
    ∷ "PUT /api/admin/users/:id/transactions/:transactionId"
    ∷ "DELETE /api/admin/users/:id/transactions/:transactionId" ∷ []

pub data Method : Type 0 where
  get head options post put patch delete : Method

abbrev pub method_name : Method → String
method_name Method.get = "GET"
method_name Method.head = "HEAD"
method_name Method.options = "OPTIONS"
method_name Method.post = "POST"
method_name Method.put = "PUT"
method_name Method.patch = "PATCH"
method_name Method.delete = "DELETE"

-- `routeKey`
unfoldable pub route_key : Method → String → String
route_key method path = method_name method ++ (" " ++ path)

pub data RouteTier : Type 0 where
  tier_user tier_admin tier_super_admin : RouteTier

-- The gate's answer: the next handler runs, or an HTTP error with the status 401, 403 or 404.
pub data Verdict : Type 0 where
  pass unauthorized forbidden not_found : Verdict

abbrev pub listed : String → List String → Bool
listed key = exists (λ k. k == key)

unfoldable pub is_public_spec_route : Method → String → Bool
is_public_spec_route Method.get path = starts_with path "/api/specs/"
is_public_spec_route _ path = false

-- `tierFor`: a route that no table names needs a login only.
unfoldable pub tier_for : String → RouteTier
tier_for key =
    if listed key super_admin_routes
    then RouteTier.tier_super_admin
    else if listed key admin_routes
    then RouteTier.tier_admin
    else RouteTier.tier_user

unfoldable pub is_gold_route : String → Bool
is_gold_route path = path == "/api/gold" || starts_with path "/api/gold/"

unfoldable pub user_satisfies_tier : User → RouteTier → Bool
unfolding is_admin is_super_admin
user_satisfies_tier u RouteTier.tier_super_admin = is_super_admin u
user_satisfies_tier u RouteTier.tier_admin = is_admin u
user_satisfies_tier u RouteTier.tier_user = true

abbrev pub is_open : Method → String → Bool
is_open method path =
    listed (route_key method path) public_routes || is_public_spec_route method path

-- The part of `AuthGate` after the session is loaded.
unfoldable pub gate : Method → String → Option User → Verdict
unfolding is_public_spec_route user_satisfies_tier
gate method path caller =
    let key = route_key method path in
    if is_open method path then Verdict.pass else elim caller [
      | none ↦ Verdict.unauthorized
      | some u ↦
          if u.must_change_password && not (listed key onboarding_routes)
          then Verdict.forbidden
          else if not (user_satisfies_tier u (tier_for key))
          then Verdict.forbidden
          else if is_gold_route path && not u.gold_enabled
          then Verdict.not_found
          else Verdict.pass
    ]

-- `CSRFCheck`, with the value of X-Requested-With.
unfoldable pub csrf_check : Method → String → Verdict
csrf_check Method.get header = Verdict.pass
csrf_check Method.head header = Verdict.pass
csrf_check Method.options header = Verdict.pass
csrf_check _ header = if header == "portfolio-dashboard" then Verdict.pass else Verdict.forbidden
