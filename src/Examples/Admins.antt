-- ===== src/Examples/Admins.antt =====
-- A super admin, an admin of a region, and a user whose account is moved and deleted.
use Prim.Native.String.{[] as empty, ◌∷◌ as ◌then◌}
use portfolio_dashboard.Prelude.{
  ℕ, zero, suc, ◌≡◌, refl, ap, true, false, ◌==◌, none, some, [], ◌∷◌, String, string_eq, nat_eq,
  nat_beq, arith, sym, ◌∙◌, inl, inr, Bool-cases, if◌then◌else◌,
}
use portfolio_dashboard.Prelude.Assoc.{lookup, insert}
use portfolio_dashboard.Domain.{ObjectId}
use portfolio_dashboard.Errors.{ok}
use portfolio_dashboard.Access.{Role, User, is_admin, is_super_admin, is_plain_user}
use portfolio_dashboard.Access.Sessions.{find_user}
use portfolio_dashboard.Exec.{healthy}
use portfolio_dashboard.Account.{answered, refused, Status}
use portfolio_dashboard.Account.Store.{patched_user, update_user, delete_user, delete_by_user}
use portfolio_dashboard.Account.Input.{valid_region}
use portfolio_dashboard.Account.Directory.{IsDirectory}
use portfolio_dashboard.Admin.{HexIds}
use portfolio_dashboard.Admin.Platform.{
  Platform, PlatformTables, delete_holdings_by_user, delete_transactions_by_user,
  delete_all_gold_by_user,
}
use portfolio_dashboard.Admin.Handlers.{
  in_scope, as_admin, as_super_admin, scoped, load_target_user, on_target, unless_own, move_user,
  admin_set_user_region,
}
use portfolio_dashboard.Admin.Requests.{
  AdminRequest, delete_data, delete_target, admin_delete_user, after_admin,
}
use portfolio_dashboard.Admin.Scope.{after_admin-Untouched}
use portfolio_dashboard.Admin.Owner.{IsOwner, after_admin-IsOwner}
use portfolio_dashboard.Admin.Deletion.Outcome.{Outcome, admin_delete_user-Outcome}
use portfolio_dashboard.Admin.Deletion.Done.{HasDeleted, admin_delete_user-ok}
use portfolio_dashboard.Examples.Memory.{memory, in_memory, no_tables}
use portfolio_dashboard.Examples.Access.{person, accounts, login_session as session}
use portfolio_dashboard.Examples.Accounts.{asha}
use portfolio_dashboard.Examples.Whole.{ℤ}
use portfolio_dashboard.Examples.Ledgers.{bought, sold}

-- A text of as many characters as the id.
unfoldable unary : ℕ → String
unary zero = empty
unary (suc n) = "x" then unary n

unfoldable unary_length : String → ℕ
unary_length empty = zero
unary_length (c then rest) = suc (unary_length rest)

unary_length-unary : (n : ℕ) → unary_length (unary n) ≡ n
unfolding unary unary_length
unary_length-unary zero = refl
unary_length-unary (suc n) = ap suc (unary_length-unary n)

abbrev tallies : HexIds
unfolding unary unary_length
tallies = record {
  hex = unary;
  from_hex = λ text. some (unary_length text);
  from_hex-hex = λ id. ap some (unary_length-unary id);
}

abbrev pub root : User
root = record (person Role.super_admin) { id = 1; username = "root" }

abbrev pub regional : User
regional = record (person Role.admin) { id = 2; username = "mira"; region = "europe" }

abbrev pub platform : Platform ℤ
platform = record {
  accounts = accounts;
  mongo = in_memory ℤ;
  gold_transactions = memory;
  gold_prices = memory;
}

abbrev pub all_tables : PlatformTables ℤ platform
all_tables = record {
  accounts = record {
    sessions = ("abc", session) ∷ [];
    users = (1, root) ∷ (2, regional) ∷ (7, asha) ∷ [];
  };
  portfolios = record (no_tables ℤ) { transactions = (1, bought) ∷ (2, sold) ∷ [] };
  gold_transactions = [];
  gold_prices = [];
}

abbrev key_of : String → ObjectId
key_of username = if username == "root" then 1 else if username == "mira" then 2 else 7

key_of-stored :
    (k : ObjectId) (u : User) → lookup k all_tables.accounts.users ≡ some u → key_of u.username ≡ k
unfolding lookup
key_of-stored k u h = elim (Bool-cases (nat_beq 1 k)) [
  | inl one ↦ by_user root u k (ground arith) (ground arith)
  | inr a ↦ elim (Bool-cases (nat_beq 2 k)) [
    | inl two ↦ by_user regional u k (ground arith) (ground arith)
    | inr b ↦ by_user asha u k (ground arith) (ground arith)
  ]
]
  where
    by_user :
        (v u : User) (k : ObjectId)
        → some v ≡ some u
        → key_of v.username ≡ k
        → key_of u.username ≡ k
    by_user v u k e h = ap (λ o. elim o [ none ↦ k | some x ↦ key_of x.username ]) (sym e) ∙ h

all_tables-IsDirectory : IsDirectory accounts all_tables.accounts
unfolding lookup
all_tables-IsDirectory = record {
  keyed = λ k u h. ground arith;
  unique = λ k j u v h g e. sym (key_of-stored k u h) ∙ ap key_of e ∙ key_of-stored j v g;
}

-- The admin of another region asks for the deletion of the user.
after_admin-Untouched_example :
    lookup 7
      (after_admin platform tallies true 5
        (some regional)
        (AdminRequest.to_delete "xxxxxxx")
        (healthy all_tables)).stored.accounts.users
    ≡ some asha
unfolding lookup in_scope is_super_admin is_plain_user
after_admin-Untouched_example =
    after_admin-Untouched platform tallies true 5 7 asha regional (AdminRequest.to_delete "xxxxxxx")
      (healthy all_tables) all_tables-IsDirectory refl refl

-- The super admin asks for the deletion of the own account.
after_admin-IsOwner_example :
    IsOwner platform tallies true 5 1
      (after_admin platform tallies true 5
        (some root)
        (AdminRequest.to_delete "x")
        (healthy all_tables)).stored.accounts
unfolding lookup is_super_admin
after_admin-IsOwner_example =
    after_admin-IsOwner platform tallies true 5 1 root (AdminRequest.to_delete "x")
      (healthy all_tables) all_tables-IsDirectory (root, refl, (refl, refl)) (λ h. refl)

admin_delete_user-Outcome_example :
    Outcome platform tallies true "xxxxxxx" 7 asha
      (admin_delete_user platform tallies true
        (some root)
        "xxxxxxx"
        (record { stored = all_tables; faults = false ∷ false ∷ false ∷ true ∷ [] })).1.stored
unfolding lookup
admin_delete_user-Outcome_example =
    admin_delete_user-Outcome platform tallies true 7 asha "xxxxxxx" root
      (record { stored = all_tables; faults = false ∷ false ∷ false ∷ true ∷ [] })
      all_tables-IsDirectory refl

admin_delete_user-ok_example :
    HasDeleted platform tallies true root all_tables
      (admin_delete_user platform tallies true (some root) "xxxxxxx" (healthy all_tables)).1.stored
unfolding unary unary_length lookup admin_delete_user as_admin is_admin load_target_user find_user
    scoped in_scope is_super_admin delete_target delete_data delete_all_gold_by_user
    delete_holdings_by_user delete_transactions_by_user delete_by_user delete_user
admin_delete_user-ok_example =
    admin_delete_user-ok platform tallies true root "xxxxxxx" (healthy all_tables) refl

-- The guard on the own account compares texts, and another text is read as the same id.
own_region_moves :
    (admin_set_user_region accounts tallies 5 (some root) "y" "us" (healthy all_tables.accounts)).0
    ≡ ok (answered (record root { region = "us" }))
unfolding unary unary_length lookup insert admin_set_user_region as_super_admin is_super_admin
    unless_own valid_region on_target load_target_user find_user scoped in_scope move_user
    update_user patched_user
own_region_moves = refl

own_region_stays :
    (admin_set_user_region accounts tallies 5 (some root) "x" "us" (healthy all_tables.accounts)).0
    ≡ ok (refused Status.forbidden)
unfolding tallies unary admin_set_user_region as_super_admin is_super_admin unless_own
own_region_stays = refl
