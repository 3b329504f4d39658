-- ===== src/Account/Found.antt =====
-- The lookup of an account by its username, with which a handler begins.
use portfolio_dashboard.Prelude.{
  ◌≡◌, refl, sym, ◌∙◌, ap, Bool, none, some, String, nat_eq, string_eq, ◌==◌, arith, ==_iff,
  Option-cases, inl, inr,
}
use mathlib.Core.Path.{subst}
use portfolio_dashboard.Errors.{ok}
use portfolio_dashboard.Domain.{ObjectId}
use portfolio_dashboard.Access.{User}
use portfolio_dashboard.Access.Sessions.{Accounts, AccountTables}
use portfolio_dashboard.Exec.{World, Exec, pure, ◌>>=◌}
use portfolio_dashboard.Exec.Success.{gets-ok}
use portfolio_dashboard.Account.{Credentials, Reply, answered, refused, Status}
use portfolio_dashboard.Account.Input.{normalize_username}
use portfolio_dashboard.Account.Store.{find_by_username}
use portfolio_dashboard.Account.Directory.{IsDirectory}

module _ (a : Accounts) (c : Credentials) where
  abbrev pub named : String → User → Bool
  named username u = u.username == normalize_username c username

  -- A handler that answers has found the user.
  abbrev pub on_found :
      {B : Type 0}
      → String
      → Status
      → (User → Exec (AccountTables a) (Reply B))
      → Exec (AccountTables a) (Reply B)
  on_found username s f = find_by_username a c username >>= λ found. elim found [
    | none ↦ pure (refused s)
    | some u ↦ f u
  ]

  pub find_by_username-ok :
      {B : Type 0} (username : String) (s : Status) (f : User → Exec (AccountTables a) (Reply B))
      (w : World (AccountTables a)) (b : B)
      → (on_found username s f w).0 ≡ ok (answered b)
      → (u : User) × (x : World (AccountTables a)) × (x.stored ≡ w.stored)
        × (a.users.find_one (named username) w.stored.users ≡ some u)
        × ((find_by_username a c username >>= λ found. elim found [
          | none ↦ pure (refused s)
          | some u ↦ f u
        ])
              w
            ≡ f u x)
  unfolding find_by_username
  find_by_username-ok username s f w b h =
      let (x, same, e) =
        gets-ok (λ t. a.users.find_one (named username) t.users)
          (λ found. elim found [ none ↦ pure (refused s) | some u ↦ f u ]) w (answered b) h in
      elim (Option-cases (a.users.find_one (named username) w.stored.users)) [
        | inl absent ↦
            let refusal : (on_found username s f w).0 ≡ ok (refused s) =
              ap (λ z. z.0) e ∙ rw absent refl in
            absurd (ground arith)
        | inr (u, found) ↦ (u, x, same, found, e ∙ rw found refl)
      ]

  -- The user with the name is the one that is found.
  pub find_one-named :
      (username : String) (t : AccountTables a) (k : ObjectId) (u : User)
      → IsDirectory a t
      → a.users.find k t.users ≡ some u
      → u.username ≡ normalize_username c username
      → a.users.find_one (named username) t.users ≡ some u
  find_one-named username t k u d stored name =
      elim (Option-cases (a.users.find_one (named username) t.users)) [
        | inl absent ↦ absurd (
            ground (
              arith,
              a.users.find_one-none (named username) t.users k u absent stored,
              ==_iff u.username (normalize_username c username),
            ))
        | inr (v, found) ↦
            let (holds, j, at_j) = a.users.find_one-found (named username) t.users v found in
            let e =
              d.unique j k v u at_j stored
                ((==_iff v.username (normalize_username c username)).0 holds ∙ sym name) in
            found ∙ sym (subst (λ i. a.users.find i t.users ≡ some v) e at_j) ∙ stored
      ]
