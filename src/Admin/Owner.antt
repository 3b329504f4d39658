-- ===== src/Admin/Owner.antt =====
-- controllers/admin.go: the deployment keeps its owner.
use mathlib.Core.Path.{subst}
use portfolio_dashboard.Prelude.{
  ◌≡◌, refl, sym, ◌∙◌, ap, inl, inr, Bool, true, false, none, some, nat_eq, nat_beq, arith,
  Bool-cases, nat_beq_iff, ◌==◌, ◌||◌, string_eq, is_none,
}
use portfolio_dashboard.Clock.{Time}
use portfolio_dashboard.Domain.{ObjectId}
use portfolio_dashboard.Collection.{find-put_self}
use portfolio_dashboard.Access.{User, Session, is_plain_user, is_super_admin}
use portfolio_dashboard.Access.Sessions.{Accounts, AccountTables}
use portfolio_dashboard.Exec.{World, pure, modify, ◌>>◌}
use portfolio_dashboard.Exec.Steps.{
  Steps, IsPreorder, Steps-bind, Steps-pure, Steps-if, Steps-call, Steps-modify,
}
use portfolio_dashboard.Account.{answered, refused, Status}
use portfolio_dashboard.Account.Store.{
  update_user, patched_user, taken_by, drop_sessions, delete_user,
}
use portfolio_dashboard.Account.Directory.{IsDirectory}
use portfolio_dashboard.Admin.{HexIds}
use portfolio_dashboard.Admin.Platform.{Platform, PlatformTables}
use portfolio_dashboard.Admin.Handlers.{
  Flag, in_scope, reset_lockout, hide_user, reactivate_user, promote_user, demote_user, move_user,
  switch_flag, is_plain_admin, without_lockout, with_disabled, with_region, with_flag,
}
use portfolio_dashboard.Admin.Requests.{AdminRequest, delete_target, after_admin}
use portfolio_dashboard.Admin.Target.{IsTarget}
use portfolio_dashboard.Admin.Reach.{Handled, Lifted, Lifted-IsPreorder, after_admin-at}
use portfolio_dashboard.Admin.Scope.{patched_user-other, Handled-other}

module _ {F : Type 0} (p : Platform F) (ids : HexIds) (has_gold : Bool) (now : Time)
    (o : ObjectId) where
  abbrev a : Accounts
  a = p.accounts

  abbrev pub IsInCharge : User → Type 0
  IsInCharge u = (is_super_admin u ≡ true) × (u.disabled ≡ false)

  -- The account o is stored, is the super admin's, and is not hidden.
  abbrev pub IsOwner : AccountTables a → Type 0
  IsOwner t = (v : User) × (a.users.find o t.users ≡ some v) × IsInCharge v

  abbrev KeepsOwner : AccountTables a → AccountTables a → Type 0
  KeepsOwner s t = IsOwner s → IsOwner t

  order : IsPreorder KeepsOwner
  order = record { reflexive = λ s h. h; transitive = λ r s t f g h. g (f h) }

  patches_other :
      (k : ObjectId) (patch : User → User)
      → nat_beq k o ≡ false
      → Steps KeepsOwner (update_user a k patch)
  unfolding update_user
  patches_other k patch other =
      Steps-call KeepsOwner order (patched_user a k patch)
        (λ t (v, stored, charge). (v, patched_user-other a k o patch t other ∙ stored, charge))

  removes_other : (k : ObjectId) → nat_beq k o ≡ false → Steps KeepsOwner (delete_user a k)
  unfolding delete_user
  removes_other k other =
      Steps-modify KeepsOwner order (λ t. record t { users = a.users.remove k t.users })
        (λ t (v, stored, charge). (v, ground (arith, a.users.find-remove k o t.users), charge))

  drops : (q : Session → Bool) → Steps KeepsOwner (modify (drop_sessions a q))
  drops q = Steps-modify KeepsOwner order (drop_sessions a q) (λ s h. h)

  -- A patch after which the owner still is in charge, of any account.
  patched_user-IsOwner :
      (k : ObjectId) (patch : User → User) (t : AccountTables a)
      → ((v : User) → IsInCharge v → IsInCharge (patch v))
      → IsOwner t
      → IsOwner (patched_user a k patch t).1
  unfolding patched_user
  patched_user-IsOwner k patch t keeps (v, stored, charge) = elim (Bool-cases (nat_beq k o)) [
    | inr other ↦ (v, patched_user-other a k o patch t other ∙ stored, charge)
    | inl same ↦
        let e = (nat_beq_iff k o).0 same in
        let at_k = subst (λ i. a.users.find i t.users ≡ some v) (sym e) stored in
        elim (Bool-cases (
          ((patch v).username == v.username)
          || is_none (a.users.find_one (taken_by a (patch v).username k) t.users))) [
            | inl free ↦
                rw (patched_user, at_k, free)
                  (
                    patch v,
                    subst (λ i. a.users.find i (a.users.put k (patch v) t.users) ≡ some (patch v)) e
                        (find-put_self a.users k (patch v) t.users),
                    keeps v charge,
                  )
            | inr taken ↦ rw (patched_user, at_k, taken) (v, stored, charge)
          ]
  ]

  patch_then :
      {A : Type 0} (k : ObjectId) (patch : User → User) (r : A)
      → ((v : User) → IsInCharge v → IsInCharge (patch v))
      → Steps KeepsOwner (update_user a k patch >> pure r)
  unfolding update_user
  patch_then k patch r keeps =
      Steps-bind KeepsOwner order (update_user a k patch) _
        (Steps-call KeepsOwner order (patched_user a k patch)
          (λ t h. patched_user-IsOwner k patch t keeps h))
        (λ x. Steps-pure KeepsOwner order r)

  with_flag-IsInCharge :
      (flag : Flag) (enabled : Bool) (v : User)
      → IsInCharge v
      → IsInCharge (with_flag now flag enabled v)
  unfolding is_super_admin
  with_flag-IsInCharge Flag.gold enabled v h = h
  with_flag-IsInCharge Flag.premium enabled v h = h
  with_flag-IsInCharge Flag.delta_from_history enabled v h = h

  -- The own account of the super admin: it is neither hidden nor deleted, and has the wrong role for the rest.
  Handled-own :
      (c u : User)
      → is_super_admin u ≡ true
      → u.id ≡ c.id
      → Handled p ids has_gold now KeepsOwner order c u
  unfolding reset_lockout hide_user reactivate_user promote_user demote_user move_user switch_flag
      delete_target is_super_admin is_plain_user
  Handled-own c u charge own =
      let L = Lifted p ids has_gold now KeepsOwner order in
      let lifted = Lifted-IsPreorder p ids has_gold now KeepsOwner order in
      record {
        resets = patch_then u.id (without_lockout now) (answered tt) (λ v h. h);
        hides =
            Steps-if KeepsOwner order (nat_beq u.id c.id) _ _
              (λ h. Steps-pure KeepsOwner order (refused Status.forbidden))
              (λ h. absurd (ground arith));
        reactivates = patch_then u.id (with_disabled now false) (answered tt) (λ v h. (h.0, refl));
        promotes =
            Steps-if KeepsOwner order (is_plain_user u) _ _ (λ h. absurd (ground arith))
              (λ h. Steps-pure KeepsOwner order (refused Status.bad_request));
        demotes =
            Steps-if KeepsOwner order (is_plain_admin u) _ _ (λ h. absurd (ground arith))
              (λ h. Steps-pure KeepsOwner order (refused Status.bad_request));
        moves = λ region. patch_then u.id (with_region now region) _ (λ v h. h);
        switches = λ flag enabled.
            patch_then u.id (with_flag now flag enabled) (answered tt)
              (with_flag-IsInCharge flag enabled);
        deletes =
            Steps-if L lifted (nat_beq u.id c.id) _ _
              (λ h. Steps-pure L lifted (refused Status.forbidden)) (λ h. absurd (ground arith));
      }

  handled :
      (c u : User) (t : AccountTables a)
      → IsDirectory a t
      → IsOwner t
      → (is_super_admin c ≡ true → c.id ≡ o)
      → IsTarget a ids c t u
      → Handled p ids has_gold now KeepsOwner order c u
  unfolding in_scope is_super_admin is_plain_user
  handled c u t d (v, stored, charge) only (id, found, reached) =
      elim (Bool-cases (nat_beq u.id o)) [
        | inr other ↦
            Handled-other p ids has_gold now KeepsOwner order o patches_other removes_other drops c
              u other
        | inl same ↦
            let at_o : id ≡ o = sym (d.keyed id u found) ∙ (nat_beq_iff u.id o).0 same in
            let v_is_u : some v ≡ some u =
              sym stored ∙ subst (λ i. a.users.find i t.users ≡ some u) at_o found in
            let super =
              subst (λ x. is_super_admin x ≡ true)
                (ap (λ x. elim x [ none ↦ v | some y ↦ y ]) v_is_u) charge.0 in
            Handled-own c u super ((nat_beq_iff u.id o).0 same ∙ sym (only (ground arith)))
      ]

  -- While there is no other super admin, no request of an admin hides, deletes or demotes the super admin's
  -- account: afterwards it is stored, with that role, and not hidden, whatever the request asks for and
  -- whichever calls of the database fail. Users are stored under their own ids and different names.
  pub after_admin-IsOwner :
      (c : User) (r : AdminRequest) (w : World (PlatformTables F p))
      → IsDirectory a w.stored.accounts
      → IsOwner w.stored.accounts
      → (is_super_admin c ≡ true → c.id ≡ o)
      → IsOwner (after_admin p ids has_gold now (some c) r w).stored.accounts
  after_admin-IsOwner c r w d owner only =
      after_admin-at p ids has_gold now KeepsOwner order (some c) w
        (λ b u is target.
          handled b u w.stored.accounts d owner
            (subst (λ x. is_super_admin x ≡ true → x.id ≡ o)
              (ap (λ x. elim x [ none ↦ c | some y ↦ y ]) is) only)
            target)
        r owner
