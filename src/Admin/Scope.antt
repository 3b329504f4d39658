-- ===== src/Admin/Scope.antt =====
-- controllers/admin.go: which accounts a request of an admin leaves alone.
use mathlib.Core.Path.{subst}
use portfolio_dashboard.Prelude.{
  ◌≡◌, sym, ◌∙◌, ap, inl, inr, Bool, true, false, none, some, nat_eq, nat_beq, nat_beq_iff, arith,
  Option-cases, Bool-cases,
}
use portfolio_dashboard.Clock.{Time}
use portfolio_dashboard.Domain.{ObjectId}
use portfolio_dashboard.Access.{Role, User, Session, is_plain_user}
use portfolio_dashboard.Access.Sessions.{Accounts, AccountTables}
use portfolio_dashboard.Exec.{World, pure, modify, ◌>>◌}
use portfolio_dashboard.Exec.Steps.{
  Steps, IsPreorder, Steps-bind, Steps-pure, Steps-if, Steps-call, Steps-modify,
}
use portfolio_dashboard.Account.{answered, refused, Status}
use portfolio_dashboard.Account.Store.{
  update_user, patched_user, drop_sessions, delete_by_user, delete_user,
}
use portfolio_dashboard.Account.Entry.{invalidate_all_sessions}
use portfolio_dashboard.Account.Directory.{IsDirectory}
use portfolio_dashboard.Admin.{HexIds}
use portfolio_dashboard.Admin.Platform.{
  Platform, PlatformTables, within, delete_holdings_by_user, delete_transactions_by_user,
  delete_all_gold_by_user,
}
use portfolio_dashboard.Admin.Handlers.{
  in_scope, reset_lockout, hide_user, reactivate_user, promote_user, demote_user, move_user,
  switch_flag, is_plain_admin, without_lockout, with_disabled, with_role, with_region, with_flag,
}
use portfolio_dashboard.Admin.Requests.{AdminRequest, delete_data, delete_target, after_admin}
use portfolio_dashboard.Admin.Target.{IsTarget}
use portfolio_dashboard.Admin.Reach.{
  Handled, Lifted, Lifted-IsPreorder, within-Steps, after_admin-at,
}

-- A patch changes no other account.
pub patched_user-other :
    (a : Accounts) (k j : ObjectId) (patch : User → User) (t : AccountTables a)
    → nat_beq k j ≡ false
    → a.users.find j (patched_user a k patch t).1.users ≡ a.users.find j t.users
unfolding patched_user
patched_user-other a k j patch t other = elim (Option-cases (a.users.find k t.users)) [
  | inl absent ↦ ground arith
  | inr (u, found) ↦ ground (arith, a.users.find-put k j (patch u) t.users)
]

module _ {F : Type 0} (p : Platform F) (ids : HexIds) (has_gold : Bool) (now : Time) where
  abbrev a : Accounts
  a = p.accounts

  -- What the deletion of the data does, for a relation that only reads the users.
  pub delete_data-Steps :
      (R : AccountTables a → AccountTables a → Type 0) (order : IsPreorder R) (uid : ObjectId)
      → ((q : Session → Bool) → Steps R (modify (drop_sessions a q)))
      → Steps (Lifted p ids has_gold now R order) (delete_data p ids has_gold uid)
  unfolding delete_data delete_holdings_by_user delete_transactions_by_user delete_all_gold_by_user
      delete_by_user
  delete_data-Steps R order uid drops =
      let L = Lifted p ids has_gold now R order in
      let o = Lifted-IsPreorder p ids has_gold now R order in
      let keeps = λ (s : PlatformTables F p). order.reflexive s.accounts in
      Steps-bind L o _ _
        (Steps-bind L o _ _
          (Steps-bind L o _ _
            (Steps-if L o has_gold _ _ (λ h. Steps-modify L o _ keeps) (λ h. Steps-pure L o tt))
            (λ x. Steps-modify L o _ keeps))
          (λ x. Steps-modify L o _ keeps))
        (λ x. within-Steps p ids has_gold now R order _ (drops _))

  -- Handlers that act on another account than j, for a relation that such writes keep.
  module _ (R : AccountTables a → AccountTables a → Type 0) (order : IsPreorder R) (j : ObjectId)
      (patches : (k : ObjectId) (patch : User → User)
        → nat_beq k j ≡ false
        → Steps R (update_user a k patch))
      (removes : (k : ObjectId) → nat_beq k j ≡ false → Steps R (delete_user a k))
      (drops : (q : Session → Bool) → Steps R (modify (drop_sessions a q))) where
    patch_then :
        {A : Type 0} (k : ObjectId) (patch : User → User) (r : A)
        → nat_beq k j ≡ false
        → Steps R (update_user a k patch >> pure r)
    patch_then k patch r other =
        Steps-bind R order (update_user a k patch) _ (patches k patch other)
          (λ x. Steps-pure R order r)

    pub hide_other :
        (u : User)
        → nat_beq u.id j ≡ false
        → Steps R (
            update_user a u.id (with_disabled now true)
            >> invalidate_all_sessions a u.id
            >> pure (answered tt))
    unfolding invalidate_all_sessions delete_by_user
    hide_other u other =
        Steps-bind R order _ _
          (Steps-bind R order (update_user a u.id (with_disabled now true)) _
            (patches u.id (with_disabled now true) other) (λ x. drops _))
          (λ x. Steps-pure R order (answered tt))

    pub delete_other :
        (u : User)
        → nat_beq u.id j ≡ false
        → Steps
            (Lifted p ids has_gold now R order)
            (delete_data p ids has_gold u.id >> within p (delete_user a u.id) >> pure (answered tt))
    delete_other u other =
        let L = Lifted p ids has_gold now R order in
        let o = Lifted-IsPreorder p ids has_gold now R order in
        Steps-bind L o _ _
          (Steps-bind L o (delete_data p ids has_gold u.id) _ (delete_data-Steps R order u.id drops)
            (λ x.
              within-Steps p ids has_gold now R order (delete_user a u.id) (removes u.id other)))
          (λ x. Steps-pure L o (answered tt))

    pub Handled-other :
        (c u : User) → nat_beq u.id j ≡ false → Handled p ids has_gold now R order c u
    unfolding reset_lockout hide_user reactivate_user promote_user demote_user move_user switch_flag
        delete_target
    Handled-other c u other =
        let L = Lifted p ids has_gold now R order in
        let o = Lifted-IsPreorder p ids has_gold now R order in
        record {
          resets = patch_then u.id (without_lockout now) (answered tt) other;
          hides =
              Steps-if R order (nat_beq u.id c.id) _ _
                (λ h. Steps-pure R order (refused Status.forbidden)) (λ h. hide_other u other);
          reactivates = patch_then u.id (with_disabled now false) (answered tt) other;
          promotes =
              Steps-if R order (is_plain_user u) _ _
                (λ h. patch_then u.id (with_role now Role.admin) _ other)
                (λ h. Steps-pure R order (refused Status.bad_request));
          demotes =
              Steps-if R order (is_plain_admin u) _ _
                (λ h. patch_then u.id (with_role now Role.user) _ other)
                (λ h. Steps-pure R order (refused Status.bad_request));
          moves = λ region. patch_then u.id (with_region now region) _ other;
          switches =
              λ flag enabled. patch_then u.id (with_flag now flag enabled) (answered tt) other;
          deletes =
              Steps-if L o (nat_beq u.id c.id) _ _ (λ h. Steps-pure L o (refused Status.forbidden))
                (λ h. delete_other u other);
        }

  module _ (j : ObjectId) (v : User) where
    -- The account j stays what it is.
    abbrev pub Untouched : AccountTables a → AccountTables a → Type 0
    Untouched s t = a.users.find j s.users ≡ some v → a.users.find j t.users ≡ some v

    pub Untouched-IsPreorder : IsPreorder Untouched
    Untouched-IsPreorder = record { reflexive = λ s h. h; transitive = λ r s t f g h. g (f h) }

    pub update_user-Untouched :
        (k : ObjectId) (patch : User → User)
        → nat_beq k j ≡ false
        → Steps Untouched (update_user a k patch)
    unfolding update_user
    update_user-Untouched k patch other =
        Steps-call Untouched Untouched-IsPreorder (patched_user a k patch)
          (λ t h. patched_user-other a k j patch t other ∙ h)

    pub drop_sessions-Untouched :
        (q : Session → Bool) → Steps Untouched (modify (drop_sessions a q))
    drop_sessions-Untouched q =
        Steps-modify Untouched Untouched-IsPreorder (drop_sessions a q) (λ s h. h)

    pub delete_user-Untouched :
        (k : ObjectId) → nat_beq k j ≡ false → Steps Untouched (delete_user a k)
    unfolding delete_user
    delete_user-Untouched k other =
        Steps-modify Untouched Untouched-IsPreorder
          (λ t. record t { users = a.users.remove k t.users })
          (λ t h. ground (arith, a.users.find-remove k j t.users))

    -- A target in scope is not the account j, if that is out of scope.
    target_is_other :
        (c u : User) (t : AccountTables a)
        → IsDirectory a t
        → a.users.find j t.users ≡ some v
        → in_scope c v ≡ false
        → IsTarget a ids c t u
        → nat_beq u.id j ≡ false
    target_is_other c u t d stored out (id, found, reached) = elim (Bool-cases (nat_beq u.id j)) [
      | inr other ↦ other
      | inl same ↦
          let at_j : id ≡ j = sym (d.keyed id u found) ∙ (nat_beq_iff u.id j).0 same in
          let u_is_v : some u ≡ some v =
            sym (subst (λ i. a.users.find i t.users ≡ some u) at_j found) ∙ stored in
          absurd (ground arith)
    ]

    -- A request of an admin leaves every account as it is that the admin may not reach, whatever the request
    -- asks for and whichever calls of the database fail, if users are stored under their own ids and
    -- different names.
    pub after_admin-Untouched :
        (c : User) (r : AdminRequest) (w : World (PlatformTables F p))
        → IsDirectory a w.stored.accounts
        → a.users.find j w.stored.accounts.users ≡ some v
        → in_scope c v ≡ false
        → a.users.find j (after_admin p ids has_gold now (some c) r w).stored.accounts.users
          ≡ some v
    after_admin-Untouched c r w d stored out =
        after_admin-at p ids has_gold now Untouched Untouched-IsPreorder (some c) w
          (λ b u is target.
            Handled-other Untouched Untouched-IsPreorder j update_user-Untouched
              delete_user-Untouched drop_sessions-Untouched b u
              (target_is_other b u w.stored.accounts d stored
                (subst (λ x. in_scope x v ≡ false) (ap (λ o. elim o [ none ↦ c | some x ↦ x ]) is)
                  out)
                target))
          r stored
