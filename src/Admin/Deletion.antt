-- ===== src/Admin/Deletion.antt =====
-- controllers/admin.go: the deletion of an account with its data, which no transaction spans.
pub mod Outcome
pub mod Done
use mathlib.Core.Path.{subst}
use portfolio_dashboard.Prelude.{
  ◌≡◌, refl, sym, ◌∙◌, ap, ◌⊎◌, inl, inr, Bool, true, false, Option, none, some, String, nat_eq,
  nat_beq, string_eq, ◌==◌, arith, ==_iff, ==_refl, Option-cases, Bool-cases, nat_beq_iff,
  if◌then◌else◌,
}
use portfolio_dashboard.Clock.{Time}
use portfolio_dashboard.Errors.{Error, Result, ok, err}
use portfolio_dashboard.Domain.{ObjectId, Transaction, Holding}
use portfolio_dashboard.Collection.{remove_all_left}
use portfolio_dashboard.Mongo.{Tables}
use portfolio_dashboard.Gold.{GoldTransaction, GoldPrice}
use portfolio_dashboard.Access.{User, Session, is_admin}
use portfolio_dashboard.Access.Sessions.{Accounts, AccountTables}
use portfolio_dashboard.Exec.{World, Exec, pure, call, modify, continue, ◌>>◌, ◌>>=◌}
use portfolio_dashboard.Exec.Success.{bind-ok, bind-cases, call-ok, call-cases}
use portfolio_dashboard.Exec.Steps.{IsPreorder}
use portfolio_dashboard.Account.{Reply, answered, refused, Status}
use portfolio_dashboard.Account.Store.{drop_sessions, delete_by_user, delete_user}
use portfolio_dashboard.Account.Directory.{IsDirectory}
use portfolio_dashboard.Admin.{HexIds}
use portfolio_dashboard.Admin.Platform.{
  Platform, PlatformTables, within, delete_holdings_by_user, delete_transactions_by_user,
  delete_all_gold_by_user,
}
use portfolio_dashboard.Admin.Handlers.{as_admin, load_target_user}
use portfolio_dashboard.Admin.Requests.{delete_data, delete_target, admin_delete_user}
use portfolio_dashboard.Admin.Target.{IsTarget, load_target_user-stored, load_target_user-ok}
use portfolio_dashboard.Admin.Scope.{
  delete_data-Steps, Handled-other, Untouched, Untouched-IsPreorder, update_user-Untouched,
  delete_user-Untouched, drop_sessions-Untouched,
}
use portfolio_dashboard.Admin.Reach.{Handled}

module _ {F : Type 0} (p : Platform F) (ids : HexIds) (has_gold : Bool) where
  abbrev a : Accounts
  a = p.accounts

  -- Nothing that is stored names the user as its owner, in the stores that the deletion reaches.
  pub record IsForgotten (uid : ObjectId) (t : PlatformTables F p) : Type 0 where
    pub no_holding :
        (j : ObjectId) (x : Holding F)
        → p.mongo.holdings.find j t.portfolios.holdings ≡ some x
        → nat_beq x.user_id uid ≡ false
    pub no_transaction :
        (j : ObjectId) (x : Transaction F)
        → p.mongo.transactions.find j t.portfolios.transactions ≡ some x
        → nat_beq x.user_id uid ≡ false
    pub no_session :
        (j : String) (x : Session)
        → a.sessions.find j t.accounts.sessions ≡ some x
        → nat_beq x.user_id uid ≡ false
    pub no_gold :
        (j : ObjectId) (x : GoldTransaction F)
        → has_gold ≡ true
        → p.gold_transactions.find j t.gold_transactions ≡ some x
        → (x.user_id == ids.hex uid) ≡ false
    pub no_gold_price :
        (j : ObjectId) (x : GoldPrice F)
        → has_gold ≡ true
        → p.gold_prices.find j t.gold_prices ≡ some x
        → (x.user_id == ids.hex uid) ≡ false

  abbrev without_gold : ObjectId → PlatformTables F p → PlatformTables F p
  without_gold uid t = record t {
    gold_transactions =
        p.gold_transactions.remove_all (λ x. x.user_id == ids.hex uid) t.gold_transactions;
    gold_prices = p.gold_prices.remove_all (λ x. x.user_id == ids.hex uid) t.gold_prices;
  }

  abbrev without_holdings : ObjectId → PlatformTables F p → PlatformTables F p
  without_holdings uid t = record t {
    portfolios = record t.portfolios {
      holdings = p.mongo.holdings.remove_all (λ h. nat_beq h.user_id uid) t.portfolios.holdings;
    };
  }

  abbrev without_transactions : ObjectId → PlatformTables F p → PlatformTables F p
  without_transactions uid t = record t {
    portfolios = record t.portfolios {
      transactions =
          p.mongo.transactions.remove_all (λ x. nat_beq x.user_id uid) t.portfolios.transactions;
    };
  }

  abbrev without_sessions : ObjectId → PlatformTables F p → PlatformTables F p
  without_sessions uid t = record t {
    accounts = drop_sessions a (λ s. nat_beq s.user_id uid) t.accounts;
  }

  abbrev forgotten_from : ObjectId → PlatformTables F p → PlatformTables F p
  forgotten_from uid t = without_sessions uid (without_transactions uid (without_holdings uid t))

  pub forgotten :
      (uid : ObjectId) (t : PlatformTables F p)
      → IsForgotten uid (forgotten_from uid (if has_gold then without_gold uid t else t))
  forgotten uid t = record {
    no_holding = λ j x h. remove_all_left p.mongo.holdings _ j x _ h;
    no_transaction = λ j x h. remove_all_left p.mongo.transactions _ j x _ h;
    no_session = λ j x h. remove_all_left a.sessions _ j x _ h;
    no_gold = λ j x gold h.
        remove_all_left p.gold_transactions (λ y. y.user_id == ids.hex uid) j x t.gold_transactions
          (subst
            (λ b.
              p.gold_transactions.find j
                (forgotten_from uid (if b then without_gold uid t else t)).gold_transactions
              ≡ some x)
            gold h);
    no_gold_price = λ j x gold h.
        remove_all_left p.gold_prices (λ y. y.user_id == ids.hex uid) j x t.gold_prices
          (subst
            (λ b.
              p.gold_prices.find j
                (forgotten_from uid (if b then without_gold uid t else t)).gold_prices
              ≡ some x)
            gold h);
  }

  -- The first step, if there is a gold store.
  abbrev first_delete : ObjectId → Exec (PlatformTables F p) (Unit {0})
  first_delete uid = if has_gold then delete_all_gold_by_user p (ids.hex uid) else pure tt

  first_delete-ok :
      (uid : ObjectId) (w : World (PlatformTables F p))
      → (first_delete uid w).0 ≡ ok tt
      → (first_delete uid w).1.stored ≡ (if has_gold then without_gold uid w.stored else w.stored)
  unfolding delete_all_gold_by_user
  first_delete-ok uid w h = elim (Bool-cases has_gold) [
    | inl gold ↦
        let e : first_delete uid w ≡ delete_all_gold_by_user p (ids.hex uid) w = rw gold refl in
        let done =
          (call-ok (λ t. (ok tt, without_gold uid t)) w tt (sym (ap (λ r. r.0) e) ∙ h)).1 in
        ap (λ r. r.1.stored) e ∙ done ∙ rw gold refl
    | inr off ↦ rw off refl
  ]

  drop_sessions-ok :
      (uid : ObjectId) (w : World (PlatformTables F p))
      → (within p (delete_by_user a uid) w).0 ≡ ok tt
      → (within p (delete_by_user a uid) w).1.stored ≡ without_sessions uid w.stored
  unfolding delete_by_user
  drop_sessions-ok uid w h =
      let inner : World (AccountTables a) = record {
        stored = w.stored.accounts;
        faults = w.faults;
      } in
      ap (λ t. record w.stored { accounts = t })
        (call-ok (λ t. (ok tt, drop_sessions a (λ s. nat_beq s.user_id uid) t)) inner tt h).1

  pub delete_data-ok :
      (uid : ObjectId) (w : World (PlatformTables F p))
      → (delete_data p ids has_gold uid w).0 ≡ ok tt
      → (delete_data p ids has_gold uid w).1.stored
        ≡ forgotten_from uid (if has_gold then without_gold uid w.stored else w.stored)
  unfolding delete_data delete_holdings_by_user delete_transactions_by_user delete_by_user
  delete_data-ok uid w h =
      let m1 = first_delete uid in
      let m2 = delete_holdings_by_user p uid in
      let m3 = delete_transactions_by_user p uid in
      let m4 = within p (delete_by_user a uid) in
      let (x, h3, e3) = bind-ok (m1 >> m2 >> m3) (λ y. m4) w tt h in
      let (y, h2, e2) = bind-ok (m1 >> m2) (λ y. m3) w x h3 in
      let (z, h1, e1) = bind-ok m1 (λ y. m2) w y h2 in
      let s1 = first_delete-ok uid w h1 in
      let s2 =
        (call-ok (λ t. (ok tt, without_holdings uid t)) (m1 w).1 tt
          (sym (ap (λ r. r.0) e1) ∙ h2)).1 in
      let s3 =
        (call-ok (λ t. (ok tt, without_transactions uid t)) ((m1 >> m2) w).1 tt
          (sym (ap (λ r. r.0) e2) ∙ h3)).1 in
      let start = if has_gold then without_gold uid w.stored else w.stored in
      let t2 : ((m1 >> m2) w).1.stored ≡ without_holdings uid start =
        ap (λ r. r.1.stored) e1 ∙ s2 ∙ ap (without_holdings uid) s1 in
      let t3 : ((m1 >> m2 >> m3) w).1.stored
          ≡ without_transactions uid (without_holdings uid start) =
        ap (λ r. r.1.stored) e2 ∙ s3 ∙ ap (without_transactions uid) t2 in
      ap (λ r. r.1.stored) e3
      ∙ drop_sessions-ok uid ((m1 >> m2 >> m3) w).1 (sym (ap (λ r. r.0) e3) ∙ h)
      ∙ ap (without_sessions uid) t3

  abbrev pub without_user : ObjectId → AccountTables a → AccountTables a
  without_user k t = record t { users = a.users.remove k t.users }

  abbrev pub deletion : User → Option User → Exec (PlatformTables F p) (Reply (Unit {0}))
  deletion c found = elim found [
    | none ↦ pure (refused Status.not_found)
    | some target ↦ delete_target p ids has_gold c target
  ]
