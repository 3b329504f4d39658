-- ===== src/SnapshotJob/Reach.antt =====
-- services/snapshot.go: what a run keeps, given what the store of one built snapshot keeps.
use mathlib.Core.Path.{subst}
use portfolio_dashboard.Prelude.{
  ◌≡◌, refl, sym, ap, ◌∙◌, Bool, false, not, ltb, Option, none, some, List, [], ◌∷◌, String,
  string_eq, nat_eq, if◌then◌else◌,
}
use portfolio_dashboard.Clock.{Time}
use portfolio_dashboard.Double.{Double}
use portfolio_dashboard.Errors.{unknown_user, is_not_found, Result, ok, err}
use portfolio_dashboard.Domain.{ObjectId, Holding}
use portfolio_dashboard.Snapshot.{HoldingSnapshot, PortfolioSnapshot}
use portfolio_dashboard.Mongo.{Tables, snapshot_key_eq}
use portfolio_dashboard.Exec.{World, Exec, pure, raise, attempt, gets, ◌>>=◌}
use portfolio_dashboard.Exec.Steps.{
  Steps, IsPreorder, Steps-bind, Steps-read, Steps-pure, Steps-raise, Steps-if, Steps-attempt,
}
use portfolio_dashboard.SnapshotStore.{upsert}
use portfolio_dashboard.Access.{User}
use portfolio_dashboard.Access.Sessions.{find_user, AccountTables}
use portfolio_dashboard.Account.Store.{list_users}
use portfolio_dashboard.Admin.Platform.{Platform, PlatformTables, within}
use portfolio_dashboard.SnapshotJob.{
  RunOptions, RunReport, snapshot_of, build_snapshot, within_portfolios, active_users,
  store_snapshot, run_user, run_users, run_date, run, settled, with_success,
}
use portfolio_dashboard.Admin.Target.{find_user-stored}
use portfolio_dashboard.SnapshotJob.Keeps.{build_snapshot-stored, build_snapshot-ok}

module _ {F : Type 0} ⦃d : Double F⦄ (p : Platform F) (to_upper : String → String)
    (quote : ObjectId → Holding F → Option F) (now date : Time) (dry_run : Bool)
    (R : PlatformTables F p → PlatformTables F p → Type 0) (order : IsPreorder R)
    (stores : (uid : ObjectId) (lines : List (HoldingSnapshot F))
      → dry_run ≡ false
      → Steps R (
          within_portfolios p to_upper quote
            (upsert p.mongo now (snapshot_of uid date lines)))) where
  store_snapshot-at :
      (uid : ObjectId) (report : RunReport) (r : Result (PortfolioSnapshot F))
      (v : World (PlatformTables F p))
      → ((snap : PortfolioSnapshot F)
          → r ≡ ok snap
          → (lines : List (HoldingSnapshot F)) × (snap ≡ snapshot_of uid date lines))
      → R v.stored (store_snapshot p to_upper quote now dry_run uid report r v).1.stored
  unfolding store_snapshot
  store_snapshot-at uid report (err e) v h = order.reflexive v.stored
  store_snapshot-at uid report (ok snap) v h =
      let (lines, same) = h snap refl in
      (Steps-if R order dry_run _ _
          (λ dry. Steps-pure R order (with_success p to_upper quote report))
          (λ wet.
            Steps-bind R order
              (attempt (within_portfolios p to_upper quote (upsert p.mongo now snap))) _
              (Steps-attempt R order _ (
                subst (λ x. Steps R (within_portfolios p to_upper quote (upsert p.mongo now x)))
                  (sym same) (stores uid lines wet)))
              (λ written. Steps-pure R order (settled p to_upper quote uid report written)))).at
        v

  run_user-Steps :
      (report : RunReport) (u : User)
      → Steps R (run_user p to_upper quote now dry_run date report u)
  unfolding run_user
  run_user-Steps report u = record {
    at = λ w.
        let inner : World (Tables F p.mongo) = record {
          stored = w.stored.portfolios;
          faults = w.faults;
        } in
        let b = build_snapshot p.mongo to_upper quote u.id date inner in
        let v : World (PlatformTables F p) = record {
          stored = record w.stored { portfolios = b.1.stored };
          faults = b.1.faults;
        } in
        let same : v.stored ≡ w.stored =
          ap (λ t. record w.stored { portfolios = t })
            (build_snapshot-stored p.mongo to_upper quote u.id date inner) in
        subst (λ s. R s (run_user p to_upper quote now dry_run date report u w).1.stored) same
          (store_snapshot-at u.id report b.0 v
            (λ snap built. build_snapshot-ok p.mongo to_upper quote u.id date inner snap built));
  }

  goes_on :
      (report : RunReport) (u : User) (rest : List User) (alive : Result (Unit {0}))
      → ((next : RunReport) → Steps R (run_users p to_upper quote now dry_run date next rest))
      → Steps R (elim alive [
        | err e ↦ pure (report, some e)
        | ok x ↦ run_user p to_upper quote now dry_run date report u >>= λ next.
            run_users p to_upper quote now dry_run date next rest
      ])
  goes_on report u rest (err e) k = Steps-pure R order (report, some e)
  goes_on report u rest (ok x) k =
      Steps-bind R order (run_user p to_upper quote now dry_run date report u) _
        (run_user-Steps report u) k

  pub run_users-Steps :
      (report : RunReport) (users : List User)
      → Steps R (run_users p to_upper quote now dry_run date report users)
  unfolding run_users
  run_users-Steps report [] = Steps-pure R order (report, none)
  run_users-Steps report (u ∷ rest) =
      Steps-bind R order (attempt (gets (λ t. tt))) _
        (Steps-attempt R order _ (Steps-read R order _))
        (λ alive. goes_on report u rest alive (λ next. run_users-Steps next rest))

module _ {F : Type 0} ⦃d : Double F⦄ (p : Platform F) (to_upper : String → String)
    (quote : ObjectId → Holding F → Option F) (now : Time) (options : RunOptions)
    (R : PlatformTables F p → PlatformTables F p → Type 0) (order : IsPreorder R) where
  -- A service on the accounts that writes none of them.
  reads-Steps :
      {A : Type 0} (m : Exec (AccountTables p.accounts) A)
      → ((v : World (AccountTables p.accounts)) → (m v).1.stored ≡ v.stored)
      → Steps R (within p m)
  reads-Steps m same = record {
    at = λ w.
        let inner : World (AccountTables p.accounts) = record {
          stored = w.stored.accounts;
          faults = w.faults;
        } in
        let kept : record w.stored { accounts = (m inner).1.stored } ≡ w.stored =
          ap (λ t. record w.stored { accounts = t }) (same inner) in
        subst (R w.stored) (sym kept) (order.reflexive w.stored);
  }

  answered_users :
      (found : Result User)
      → Steps R (elim found as (λ x. Exec (PlatformTables F p) (List User)) [
        | ok u ↦ pure (if u.disabled then [] else u ∷ [])
        | err e ↦ raise (if is_not_found e then unknown_user else e)
      ])
  answered_users (ok u) = Steps-pure R order (if u.disabled then [] else u ∷ [])
  answered_users (err e) = Steps-raise R order (if is_not_found e then unknown_user else e)

  active_users-Steps : (wanted : Option ObjectId) → Steps R (active_users p to_upper quote wanted)
  unfolding active_users find_user list_users
  active_users-Steps none =
      reads-Steps (list_users p.accounts (λ u. not u.disabled) (λ u v. ltb u.id v.id))
        (Steps-read (λ s t. t ≡ s)
          (record { reflexive = λ s. refl; transitive = λ r s t e f. f ∙ e }) _).at
  active_users-Steps (some id) =
      Steps-bind R order (attempt (within p (find_user p.accounts id))) _
        (Steps-attempt R order _
          (reads-Steps (find_user p.accounts id) (find_user-stored p.accounts id)))
        answered_users

  -- If the store of each built snapshot keeps the relation, and none is stored in a dry run, the run keeps it.
  pub run-at :
      ((uid : ObjectId) (lines : List (HoldingSnapshot F))
        → options.dry_run ≡ false
        → Steps R (
            within_portfolios p to_upper quote
              (upsert p.mongo now (snapshot_of uid (run_date p to_upper quote now options) lines))))
      → (w : World (PlatformTables F p)) → R w.stored (run p to_upper quote now options w).1.stored
  unfolding run
  run-at stores w =
      (Steps-bind R order (active_users p to_upper quote options.user_id) _
          (active_users-Steps options.user_id)
          (λ users.
            run_users-Steps p to_upper quote now (run_date p to_upper quote now options)
              options.dry_run R order stores _ users)).at
        w
