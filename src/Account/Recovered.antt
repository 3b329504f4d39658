-- ===== src/Account/Recovered.antt =====
-- controllers/auth.go: what a successful recovery of a password has checked and done.
use mathlib.Core.Path.{subst}
use portfolio_dashboard.Prelude.{
  ◌≡◌, ◌≢◌, refl, sym, ◌∙◌, ap, inl, inr, true, false, some, String, nat_eq, string_eq, nat_beq,
  arith, leb, ◌+◌, ◌<◌, if◌then◌else◌, ==_iff, ==_refl, Option-cases, Bool-cases,
}
use portfolio_dashboard.Errors.{ok, err, crypto}
use portfolio_dashboard.Collection.{remove_all_left, find-put_self}
use portfolio_dashboard.Domain.{ObjectId}
use portfolio_dashboard.Access.{User, Session}
use portfolio_dashboard.Access.Sessions.{Accounts, AccountTables}
use portfolio_dashboard.Exec.{World, pure, ◌>>◌}
use portfolio_dashboard.Exec.Success.{bind-ok, call-ok}
use portfolio_dashboard.Account.{Credentials, answered, refused, Status}
use portfolio_dashboard.Account.Input.{normalize_username, validate_password}
use portfolio_dashboard.Account.Store.{
  update_user, patched_user, put_user, drop_sessions, delete_by_user, register_recovery_failure,
}
use portfolio_dashboard.Account.Entry.{Fresh, invalidate_all_sessions}
use portfolio_dashboard.Account.Recovery.{
  RecoverRequest, is_recovery_locked, all_correct, recovery_failed, set_recovered, recovered,
  recover_user, recover_password,
}
use portfolio_dashboard.Account.Answers.{HasAnswered, all_correct-HasAnswered}
use portfolio_dashboard.Account.Directory.{IsDirectory}
use portfolio_dashboard.Account.Found.{named, on_found, find_by_username-ok}

module _ (a : Accounts) (c : Credentials) where
  -- What was true of the account before.
  abbrev pub MayRecover : AccountTables a → RecoverRequest → User → Type 0
  MayRecover t r u =
      (k : ObjectId) × (a.users.find k t.users ≡ some u)
      × (u.username ≡ normalize_username c r.username)
      × (u.disabled ≡ false)
      × (u.locked ≡ false)
      × (u.security_question_failures < 3)
      × HasAnswered c u r.answers

  abbrev pub HasNoSession : AccountTables a → ObjectId → Type 0
  HasNoSession t uid =
      (j : String) (s : Session) → a.sessions.find j t.sessions ≡ some s → s.user_id ≢ uid

  pub delete_by_user-HasNoSession :
      (uid : ObjectId) (w : World (AccountTables a))
      → (delete_by_user a uid w).0 ≡ ok tt
      → HasNoSession (delete_by_user a uid w).1.stored uid
  unfolding delete_by_user
  delete_by_user-HasNoSession uid w h j s found same =
      let mine = λ (x : Session). nat_beq x.user_id uid in
      let (done, after) = call-ok (λ t. (ok tt, drop_sessions a mine t)) w tt h in
      let left =
        remove_all_left a.sessions mine j s w.stored.sessions
          (ap (λ t. a.sessions.find j t.sessions) (sym after) ∙ found) in
      ground (arith, left)

  delete_by_user-users :
      (uid : ObjectId) (w : World (AccountTables a))
      → (delete_by_user a uid w).0 ≡ ok tt
      → (delete_by_user a uid w).1.stored.users ≡ w.stored.users
  unfolding delete_by_user
  delete_by_user-users uid w h =
      ap (λ t. t.users)
        (call-ok (λ t. (ok tt, drop_sessions a (λ x. nat_beq x.user_id uid) t)) w tt h).1

  -- A patch that keeps the username is stored.
  pub update_user-ok :
      (id : ObjectId) (patch : User → User) (u : User) (w : World (AccountTables a))
      → (update_user a id patch w).0 ≡ ok tt
      → a.users.find id w.stored.users ≡ some u
      → (patch u).username ≡ u.username
      → a.users.find id (update_user a id patch w).1.stored.users ≡ some (patch u)
  unfolding update_user patched_user
  update_user-ok id patch u w h stored same =
      let (done, after) = call-ok (patched_user a id patch) w tt h in
      let e : (patched_user a id patch w.stored).1 ≡ put_user a id (patch u) w.stored =
        rw (patched_user, stored, same, ==_refl u.username) refl in
      ap (λ t. a.users.find id t.users) (after ∙ e)
      ∙ find-put_self a.users id (patch u) w.stored.users

  set_recovered-ok :
      (fresh : Fresh) (password : String) (u : User) (w : World (AccountTables a))
      → (set_recovered c a fresh password u w).0 ≡ ok (answered tt)
      → a.users.find u.id w.stored.users ≡ some u
      → HasNoSession (set_recovered c a fresh password u w).1.stored u.id
        × (hash : String) × (c.hash_password password ≡ some hash)
        × (a.users.find u.id (set_recovered c a fresh password u w).1.stored.users
            ≡ some (recovered fresh.now hash u))
  unfolding set_recovered invalidate_all_sessions
  set_recovered-ok fresh password u w h stored = elim (Option-cases (c.hash_password password)) [
    | inl failed ↦
        let error : (set_recovered c a fresh password u w).0 ≡ err crypto =
          rw (set_recovered, failed) refl in
        absurd (ground arith)
    | inr (hash, hashed) ↦
        let write = update_user a u.id (recovered fresh.now hash) in
        let forget = delete_by_user a u.id in
        let e : set_recovered c a fresh password u w ≡ (write >> forget >> pure (answered tt)) w =
          rw (set_recovered, hashed) refl in
        let (x, both, f) =
          bind-ok (write >> forget) (λ y. pure (answered tt)) w (answered tt)
            (sym (ap (λ z. z.0) e) ∙ h) in
        let (y, written, g) = bind-ok write (λ z. forget) w x both in
        let forgotten = sym (ap (λ z. z.0) g) ∙ both in
        let after = e ∙ f in
        (
          subst (λ t. HasNoSession t u.id)
              (sym (ap (λ z. z.1.stored) after ∙ ap (λ z. z.1.stored) g))
              (delete_by_user-HasNoSession u.id (write w).1 forgotten),
          hash,
          hashed,
          ap (λ z. a.users.find u.id z.1.stored.users) after
              ∙ ap (λ z. a.users.find u.id z.1.stored.users) g
              ∙ ap (a.users.find u.id) (delete_by_user-users u.id (write w).1 forgotten)
              ∙ update_user-ok u.id (recovered fresh.now hash) u w written stored refl,
        )
  ]

  recover_user-ok :
      (fresh : Fresh) (r : RecoverRequest) (u : User) (w : World (AccountTables a))
      → (recover_user c a fresh r u w).0 ≡ ok (answered tt)
      → (u.disabled ≡ false)
        × (is_recovery_locked u ≡ false)
        × (all_correct c u r.answers ≡ true)
        × (recover_user c a fresh r u w ≡ set_recovered c a fresh r.new_password u w)
  unfolding recover_user recovery_failed
  recover_user-ok fresh r u w h = elim (Bool-cases u.disabled) [
    | inl hidden ↦ absurd (ground arith)
    | inr shown ↦ elim (Bool-cases (is_recovery_locked u)) [
      | inl shut ↦ absurd (ground arith)
      | inr unlocked ↦ elim (Bool-cases (all_correct c u r.answers)) [
        | inl right ↦ (shown, unlocked, right, rw (recover_user, shown, unlocked, right) refl)
        | inr wrong ↦
            let failed : recover_user c a fresh r u w ≡ recovery_failed c a u w =
              rw (recover_user, shown, unlocked, wrong) refl in
            let (x, first, e) =
              bind-ok (register_recovery_failure a u.id (leb 3 (u.security_question_failures + 1)))
                (λ y. pure (
                  refused (
                    if leb 3 (u.security_question_failures + 1)
                    then Status.locked
                    else Status.unauthorized)))
                w (answered tt) (sym (ap (λ z. z.0) failed) ∙ h) in
            let refusal = sym (ap (λ z. z.0) (failed ∙ e)) ∙ h in absurd (ground arith)
      ]
    ]
  ]

  unlocked_by :
      (u : User)
      → is_recovery_locked u ≡ false
      → (u.locked ≡ false) × (u.security_question_failures < 3)
  unfolding is_recovery_locked
  unlocked_by u h = (ground arith, ground arith)

  -- A recovery succeeds only for a stored account with the username that is neither hidden nor locked after
  -- three wrong tries, and only if all three questions are answered rightly; afterwards the account has a
  -- hash of the new password, no counted failures, and no session, whichever calls of the database fail. The
  -- users are stored under their own ids and different names.
  pub recover_password-ok :
      (fresh : Fresh) (r : RecoverRequest) (w : World (AccountTables a))
      → IsDirectory a w.stored
      → (recover_password c a fresh r w).0 ≡ ok (answered tt)
      → (u : User) × MayRecover w.stored r u
        × HasNoSession (recover_password c a fresh r w).1.stored u.id
        × (hash : String) × (c.hash_password r.new_password ≡ some hash)
        × (a.users.find u.id (recover_password c a fresh r w).1.stored.users
            ≡ some (record u {
              password_hash = hash;
              security_question_failures = 0;
              updated_at = fresh.now;
            }))
  unfolding recover_password
  recover_password-ok fresh r w d h = elim (Bool-cases (validate_password r.new_password)) [
    | inr invalid ↦
        let refusal : (recover_password c a fresh r w).0 ≡ ok (refused Status.bad_request) =
          rw (recover_password, invalid) refl in
        absurd (ground arith)
    | inl valid ↦
        let e : recover_password c a fresh r w
            ≡ on_found a c r.username Status.not_found (recover_user c a fresh r) w =
          rw (recover_password, valid) refl in
        let (u, x, same, found, f) =
          find_by_username-ok a c r.username Status.not_found (recover_user c a fresh r) w tt
            (sym (ap (λ z. z.0) e) ∙ h) in
        let (shown, unlocked, right, g) =
          recover_user-ok fresh r u x (sym (ap (λ z. z.0) (e ∙ f)) ∙ h) in
        let whole = e ∙ f ∙ g in
        let (holds, k, stored) =
          a.users.find_one-found (named a c r.username) w.stored.users u found in
        let stored_id =
          subst (λ i. a.users.find i w.stored.users ≡ some u) (sym (d.keyed k u stored)) stored in
        let (forgotten, hash, hashed, written) =
          set_recovered-ok fresh r.new_password u x (sym (ap (λ z. z.0) whole) ∙ h)
            (ap (λ t. a.users.find u.id t.users) same ∙ stored_id) in
        (
          u,
          (
            k,
            stored,
            (==_iff u.username (normalize_username c r.username)).0 holds,
            shown,
            (unlocked_by u unlocked).0,
            (unlocked_by u unlocked).1,
            all_correct-HasAnswered c u r.answers right,
          ),
          subst (λ t. HasNoSession t u.id) (sym (ap (λ z. z.1.stored) whole)) forgotten,
          hash,
          hashed,
          ap (λ z. a.users.find u.id z.1.stored.users) whole ∙ written,
        )
  ]
