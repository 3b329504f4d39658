-- ===== src/Admin/Deletion/Done.antt =====
-- controllers/admin.go: what an answered deletion has deleted.
use mathlib.Core.Path.{subst}
use portfolio_dashboard.Prelude.{
  ◌≡◌, refl, sym, ◌∙◌, ap, inl, inr, Bool, false, Option, none, some, String, nat_eq, nat_beq,
  string_eq, arith, ==_refl, Bool-cases,
}
use portfolio_dashboard.Errors.{Result, ok, err}
use portfolio_dashboard.Domain.{ObjectId}
use portfolio_dashboard.Access.{User, is_admin}
use portfolio_dashboard.Access.Sessions.{Accounts, AccountTables}
use portfolio_dashboard.Exec.{World, pure, continue, ◌>>◌}
use portfolio_dashboard.Exec.Success.{bind-ok, call-ok}
use portfolio_dashboard.Account.{answered, refused, Status}
use portfolio_dashboard.Account.Store.{delete_user}
use portfolio_dashboard.Admin.{HexIds}
use portfolio_dashboard.Admin.Platform.{Platform, PlatformTables, within}
use portfolio_dashboard.Admin.Handlers.{as_admin, load_target_user}
use portfolio_dashboard.Admin.Requests.{delete_data, delete_target, admin_delete_user}
use portfolio_dashboard.Admin.Target.{IsTarget, load_target_user-ok}
use portfolio_dashboard.Admin.Deletion.{
  IsForgotten, forgotten, delete_data-ok, without_user, deletion,
}

module _ {F : Type 0} (p : Platform F) (ids : HexIds) (has_gold : Bool) where
  abbrev a : Accounts
  a = p.accounts

  delete_user-ok :
      (uid : ObjectId) (w : World (PlatformTables F p))
      → (within p (delete_user a uid) w).0 ≡ ok tt
      → (within p (delete_user a uid) w).1.stored
        ≡ record w.stored { accounts = without_user p ids has_gold uid w.stored.accounts }
  unfolding delete_user
  delete_user-ok uid w h =
      let inner : World (AccountTables a) = record {
        stored = w.stored.accounts;
        faults = w.faults;
      } in
      ap (λ t. record w.stored { accounts = t })
        (call-ok (λ t. (ok tt, without_user p ids has_gold uid t)) inner tt h).1

  abbrev pub IsGone : ObjectId → PlatformTables F p → Type 0
  IsGone uid t = (a.users.find uid t.accounts.users ≡ none) × IsForgotten p ids has_gold uid t

  IsGone-with_data :
      (uid : ObjectId) (t : PlatformTables F p)
      → IsForgotten p ids has_gold uid t
      → IsGone uid (record t { accounts = without_user p ids has_gold uid t.accounts })
  IsGone-with_data uid t gone = (
    ground (arith, a.users.find-remove uid uid t.accounts.users, ==_refl uid),
    record {
      no_holding = gone.no_holding;
      no_transaction = gone.no_transaction;
      no_session = gone.no_session;
      no_gold = gone.no_gold;
      no_gold_price = gone.no_gold_price;
    },
  )

  delete_target-ok :
      (c target : User) (w : World (PlatformTables F p))
      → (delete_target p ids has_gold c target w).0 ≡ ok (answered tt)
      → (nat_beq target.id c.id ≡ false)
        × IsGone target.id (delete_target p ids has_gold c target w).1.stored
  unfolding delete_target
  delete_target-ok c target w h = elim (Bool-cases (nat_beq target.id c.id)) [
    | inl own ↦
        let refusal : (delete_target p ids has_gold c target w).0 ≡ ok (refused Status.forbidden) =
          rw (delete_target, own) refl in
        absurd (ground arith)
    | inr foreign ↦
        let m = delete_data p ids has_gold target.id in
        let n = within p (delete_user a target.id) in
        let e : delete_target p ids has_gold c target w ≡ (m >> n >> pure (answered tt)) w =
          rw (delete_target, foreign) refl in
        let (x, both, f) =
          bind-ok (m >> n) (λ y. pure (answered tt)) w (answered tt) (sym (ap (λ r. r.0) e) ∙ h) in
        let (y, first, g) = bind-ok m (λ z. n) w x both in
        let removed = delete_user-ok target.id (m w).1 (sym (ap (λ r. r.0) g) ∙ both) in
        let gone =
          subst (IsForgotten p ids has_gold target.id)
            (sym (delete_data-ok p ids has_gold target.id w first))
            (forgotten p ids has_gold target.id w.stored) in
        (
          foreign,
          subst (IsGone target.id)
              (sym (ap (λ r. r.1.stored) (e ∙ f) ∙ ap (λ r. r.1.stored) g ∙ removed))
              (IsGone-with_data target.id (m w).1.stored gone),
        )
  ]

  abbrev pub HasDeleted : User → PlatformTables F p → PlatformTables F p → Type 0
  HasDeleted c s t =
      (target : User) × IsTarget a ids c s.accounts target
      × (nat_beq target.id c.id ≡ false)
      × IsGone target.id t

  deleted_found :
      (c : User) (r : Result (Option User)) (s : PlatformTables F p)
      (v : World (PlatformTables F p))
      → (continue r (deletion p ids has_gold c) v).0 ≡ ok (answered tt)
      → ((target : User) → r ≡ ok (some target) → IsTarget a ids c s.accounts target)
      → HasDeleted c s (continue r (deletion p ids has_gold c) v).1.stored
  deleted_found c (ok none) s v h k = absurd (ground arith)
  deleted_found c (ok (some target)) s v h k =
      let (foreign, gone) = delete_target-ok c target v h in (target, k target refl, foreign, gone)
  deleted_found c (err e) s v h k = absurd (ground arith)

  -- An answered deletion has deleted an account that the admin may reach and that is not the admin's own:
  -- it is no longer stored, and no holding, transaction, session or, with a gold store, gold row is left of
  -- its user, whichever calls of the databases fail.
  pub admin_delete_user-ok :
      (c : User) (text : String) (w : World (PlatformTables F p))
      → (admin_delete_user p ids has_gold (some c) text w).0 ≡ ok (answered tt)
      → HasDeleted c w.stored (admin_delete_user p ids has_gold (some c) text w).1.stored
  unfolding admin_delete_user as_admin
  admin_delete_user-ok c text w h = elim (Bool-cases (is_admin c)) [
    | inr other ↦
        let refusal : (admin_delete_user p ids has_gold (some c) text w).0
            ≡ ok (refused Status.forbidden) =
          rw (as_admin, other) refl in
        absurd (ground arith)
    | inl admin ↦
        let inner : World (AccountTables a) = record {
          stored = w.stored.accounts;
          faults = w.faults;
        } in
        let m = load_target_user a ids c text inner in
        let v : World (PlatformTables F p) = record {
          stored = record w.stored { accounts = m.1.stored };
          faults = m.1.faults;
        } in
        let e : admin_delete_user p ids has_gold (some c) text w
            ≡ continue m.0 (deletion p ids has_gold c) v =
          rw (as_admin, admin) refl in
        subst (λ r. HasDeleted c w.stored r.1.stored) (sym e)
          (deleted_found c m.0 w.stored v (sym (ap (λ r. r.0) e) ∙ h)
            (λ target found. load_target_user-ok a ids c text inner target found))
  ]
