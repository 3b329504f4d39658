-- ===== src/Account/Lockout.antt =====
-- controllers/auth.go: wrong answers to the security questions lock the recovery of an account.
use mathlib.Core.Path.{subst}
use portfolio_dashboard.Prelude.{
  ℕ, suc, ◌+◌, ◌≤◌, ◌≡◌, refl, sym, ◌∙◌, ap, ◌⊎◌, inl, inr, true, false, some, List, [], ◌∷◌,
  nat_eq, string_eq, arith, ==_iff, ==_refl, Bool-cases, All, length, leb, ◌&&◌, nat_beq,
}
use portfolio_dashboard.Errors.{ok}
use portfolio_dashboard.Domain.{ObjectId}
use portfolio_dashboard.Access.{User}
use portfolio_dashboard.Access.Sessions.{Accounts, AccountTables}
use portfolio_dashboard.Exec.{healthy}
use portfolio_dashboard.Account.{Credentials, refused, Status}
use portfolio_dashboard.Account.Input.{normalize_username, validate_password}
use portfolio_dashboard.Account.Store.{
  find_by_username, update_user, patched_user, put_user, register_recovery_failure,
  one_more_recovery_failure,
}
use portfolio_dashboard.Account.Entry.{Fresh}
use portfolio_dashboard.Account.Recovery.{
  RecoverRequest, is_recovery_locked, all_correct, answers_each, given_from, recovery_failed,
  recover_user, recover_password,
}
use portfolio_dashboard.Account.Directory.{IsDirectory}
use portfolio_dashboard.Account.Found.{find_one-named}
use portfolio_dashboard.Account.Kept.{recover_password-Steps}

module _ (a : Accounts) (c : Credentials) where
  -- What is stored after one request, with a database that answers.
  abbrev pub after_recovery : Fresh × RecoverRequest → AccountTables a → AccountTables a
  after_recovery (fresh, r) t = (recover_password c a fresh r (healthy t)).1.stored

  abbrev pub after_recoveries : List (Fresh × RecoverRequest) → AccountTables a → AccountTables a
  after_recoveries [] t = t
  after_recoveries (r ∷ rest) t = after_recoveries rest (after_recovery r t)

  -- A request for the account's username with an acceptable new password.
  abbrev pub IsFor : User → Fresh × RecoverRequest → Type 0
  IsFor u (fresh, r) =
      (u.username ≡ normalize_username c r.username) × (validate_password r.new_password ≡ true)

  -- It answers fewer than all three questions rightly.
  abbrev pub IsWrong : User → Fresh × RecoverRequest → Type 0
  IsWrong u (fresh, r) = IsFor u (fresh, r) × (all_correct c u r.answers ≡ false)

  -- Still stored, with the same name, password and questions, after at least n wrong tries.
  pub record Tried (n : ℕ) (u : User) (k : ObjectId) (t : AccountTables a) : Type 0 where
    pub now : User
    pub stored : a.users.find k t.users ≡ some now
    pub same_name : now.username ≡ u.username
    pub shown : now.disabled ≡ false
    pub same_password : now.password_hash ≡ u.password_hash
    pub same_questions : now.security_questions ≡ u.security_questions
    pub tries : (is_recovery_locked now ≡ true) ⊎ (n ≤ now.security_question_failures)

  recover_password-found :
      (fresh : Fresh) (r : RecoverRequest) (t : AccountTables a) (k : ObjectId) (u : User)
      → IsDirectory a t
      → a.users.find k t.users ≡ some u
      → IsFor u (fresh, r)
      → recover_password c a fresh r (healthy t) ≡ recover_user c a fresh r u (healthy t)
  unfolding recover_password find_by_username
  recover_password-found fresh r t k u d stored (name, valid) =
      rw (recover_password, valid, find_one-named a c r.username t k u d stored name) refl

  recover_user-locked :
      (fresh : Fresh) (r : RecoverRequest) (t : AccountTables a) (u : User)
      → u.disabled ≡ false
      → is_recovery_locked u ≡ true
      → recover_user c a fresh r u (healthy t) ≡ (ok (refused Status.locked), healthy t)
  unfolding recover_user
  recover_user-locked fresh r t u shown shut = rw (recover_user, shown, shut) refl

  recover_user-wrong :
      (fresh : Fresh) (r : RecoverRequest) (t : AccountTables a) (u : User)
      → u.disabled ≡ false
      → is_recovery_locked u ≡ false
      → all_correct c u r.answers ≡ false
      → recover_user c a fresh r u (healthy t) ≡ recovery_failed c a u (healthy t)
  unfolding recover_user
  recover_user-wrong fresh r t u shown unlocked wrong =
      rw (recover_user, shown, unlocked, wrong) refl

  recovery_failed-stored :
      (t : AccountTables a) (u : User)
      → a.users.find u.id t.users ≡ some u
      → (recovery_failed c a u (healthy t)).1.stored
        ≡ put_user a u.id (one_more_recovery_failure (leb 3 (u.security_question_failures + 1)) u) t
  unfolding recovery_failed register_recovery_failure update_user patched_user
  recovery_failed-stored t u stored = rw (patched_user, stored, ==_refl u.username) refl

  Tried-again :
      (n m : ℕ) (u : User) (k : ObjectId) (t : AccountTables a) (tried : Tried n u k t)
      → (is_recovery_locked tried.now ≡ true) ⊎ (m ≤ tried.now.security_question_failures)
      → Tried m u k t
  Tried-again n m u k t tried tries = record {
    now = tried.now;
    stored = tried.stored;
    same_name = tried.same_name;
    shown = tried.shown;
    same_password = tried.same_password;
    same_questions = tried.same_questions;
    tries = tries;
  }

  failed_once :
      (n : ℕ) (u : User) (k : ObjectId) (t : AccountTables a) (tried : Tried n u k t)
      → is_recovery_locked tried.now ≡ false
      → tried.now.id ≡ k
      → Tried (suc n) u k (
          put_user a tried.now.id
            (one_more_recovery_failure (leb 3 (tried.now.security_question_failures + 1)) tried.now)
            t)
  failed_once n u k t tried unlocked same =
      let v =
        one_more_recovery_failure (leb 3 (tried.now.security_question_failures + 1)) tried.now in
      record {
        now = v;
        stored = ground (arith, a.users.find-put tried.now.id k v t.users, ==_iff tried.now.id k);
        same_name = tried.same_name;
        shown = tried.shown;
        same_password = tried.same_password;
        same_questions = tried.same_questions;
        tries = elim tried.tries [
          | inl shut ↦ absurd (ground arith)
          | inr enough ↦ inr (omega arith)
        ];
      }

  pub lockout_step :
      (r : Fresh × RecoverRequest) (n : ℕ) (u : User) (k : ObjectId) (t : AccountTables a)
      → IsDirectory a t
      → IsWrong u r
      → Tried n u k t
      → Tried (suc n) u k (after_recovery r t)
  unfolding all_correct
  lockout_step (fresh, r) n u k t d (for_u, wrong) tried =
      let v = tried.now in
      let e =
        recover_password-found fresh r t k v d tried.stored (tried.same_name ∙ for_u.0, for_u.1) in
      let still_wrong =
        ap (λ qs. nat_beq (length qs) 3 && answers_each c (given_from [] r.answers) qs)
          tried.same_questions
        ∙ wrong in
      elim (Bool-cases (is_recovery_locked v)) [
        | inl shut ↦
            subst (Tried (suc n) u k)
              (sym (ap (λ z. z.1.stored) (e ∙ recover_user-locked fresh r t v tried.shown shut)))
              (Tried-again n (suc n) u k t tried (inl shut))
        | inr unlocked ↦
            subst (Tried (suc n) u k)
              (sym (
                ap (λ z. z.1.stored)
                  (e ∙ recover_user-wrong fresh r t v tried.shown unlocked still_wrong)
                ∙ recovery_failed-stored t v (
                    subst (λ i. a.users.find i t.users ≡ some v) (sym (d.keyed k v tried.stored))
                      tried.stored)))
              (failed_once n u k t tried unlocked (d.keyed k v tried.stored))
      ]

  lockout_run :
      (rs : List (Fresh × RecoverRequest)) (n : ℕ) (u : User) (k : ObjectId) (t : AccountTables a)
      → IsDirectory a t
      → All (IsWrong u) rs
      → Tried n u k t
      → IsDirectory a (after_recoveries rs t) × Tried (length rs + n) u k (after_recoveries rs t)
  lockout_run [] n u k t d wrong tried = (d, Tried-again n (0 + n) u k t tried (ground arith))
  lockout_run ((fresh, r) ∷ rest) n u k t d (wrong, more) tried =
      let (d', all_tried) =
        lockout_run rest (suc n) u k (after_recovery (fresh, r) t)
          ((recover_password-Steps a c fresh r).at (healthy t) d) more
          (lockout_step (fresh, r) n u k t d wrong tried) in
      (
        d',
        subst (λ m. Tried m u k (after_recoveries rest (after_recovery (fresh, r) t))) (omega arith)
            all_tried,
      )

  Tried-locked :
      (u : User) (k : ObjectId) (t : AccountTables a) (tried : Tried 3 u k t)
      → is_recovery_locked tried.now ≡ true
  unfolding is_recovery_locked
  Tried-locked u k t tried = ground arith

  -- With a database that answers: after three or more requests with wrong answers the account is stored with
  -- the password it had, and any further request, with right answers too, is refused as locked and changes
  -- nothing. Each request has an acceptable new password and the username of an account that is not hidden,
  -- and users are stored under their own ids and different names.
  pub after_recoveries-locked :
      (rs : List (Fresh × RecoverRequest)) (last : Fresh × RecoverRequest) (u : User) (k : ObjectId)
      (t : AccountTables a)
      → IsDirectory a t
      → a.users.find k t.users ≡ some u
      → u.disabled ≡ false
      → All (IsWrong u) rs
      → 3 ≤ length rs
      → IsFor u last
      → (v : User) × (a.users.find k (after_recoveries rs t).users ≡ some v)
        × (v.password_hash ≡ u.password_hash)
        × (recover_password c a last.0 last.1 (healthy (after_recoveries rs t))
            ≡ (ok (refused Status.locked), healthy (after_recoveries rs t)))
  after_recoveries-locked rs (fresh, r) u k t d stored shown wrong enough for_u =
      let (d', run) = lockout_run rs 0 u k t d wrong (record {
        now = u;
        stored = stored;
        same_name = refl;
        shown = shown;
        same_password = refl;
        same_questions = refl;
        tries = inr (omega arith);
      }) in
      let tried : Tried 3 u k (after_recoveries rs t) =
        Tried-again (length rs + 0) 3 u k (after_recoveries rs t) run (ground arith) in
      let final = after_recoveries rs t in
      (
        tried.now,
        tried.stored,
        tried.same_password,
        recover_password-found fresh r final k tried.now d' tried.stored
              (tried.same_name ∙ for_u.0, for_u.1)
            ∙ recover_user-locked fresh r final tried.now tried.shown
                (Tried-locked u k final tried),
      )
