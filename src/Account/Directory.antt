-- ===== src/Account/Directory.antt =====
-- The directory of users: each is stored under their own id, and no two have the same username.
use portfolio_dashboard.Prelude.{
  ◌≡◌, refl, ◌∙◌, ap, Bool, none, some, String, ◌==◌, string_eq, nat_eq, is_none, arith, ==_iff,
  Option-cases, Bool-cases, inl, inr,
}
use portfolio_dashboard.Domain.{ObjectId}
use portfolio_dashboard.Access.{User, Session}
use portfolio_dashboard.Access.Sessions.{Accounts, AccountTables}
use portfolio_dashboard.Exec.{modify}
use portfolio_dashboard.Exec.Steps.{Steps, IsPreorder, Steps-call, Steps-modify}
use portfolio_dashboard.Account.Store.{
  inserted, insert_user, patched_user, update_user, put_user, taken_by, insert_session,
  inserted_session, put_session, drop_sessions,
}

module _ (a : Accounts) where
  pub record IsDirectory (t : AccountTables a) : Type 0 where
    pub keyed : (k : ObjectId) (u : User) → a.users.find k t.users ≡ some u → u.id ≡ k
    pub unique :
        (k j : ObjectId) (u v : User)
        → a.users.find k t.users ≡ some u
        → a.users.find j t.users ≡ some v
        → u.username ≡ v.username
        → k ≡ j

  put_user-IsDirectory :
      (id : ObjectId) (u : User) (t : AccountTables a)
      → u.id ≡ id
      → ((k : ObjectId) (v : User)
          → a.users.find k t.users ≡ some v
          → v.username ≡ u.username
          → k ≡ id)
      → IsDirectory t
      → IsDirectory (put_user a id u t)
  put_user-IsDirectory id u t same free d = record {
    keyed = λ k v h. ground (arith, a.users.find-put id k u t.users, d.keyed k v, ==_iff id k);
    unique = λ k j v w h g e. ground (
      arith,
      a.users.find-put id k u t.users,
      a.users.find-put id j u t.users,
      ==_iff id k,
      ==_iff id j,
      d.unique k j v w,
      free k v,
      free j w,
    );
  }

  pub inserted-IsDirectory :
      (u : User) (t : AccountTables a) → IsDirectory t → IsDirectory (inserted a u t).1
  unfolding inserted
  inserted-IsDirectory u t d = elim (Bool-cases (is_none (a.users.find u.id t.users))) [
    | inl new ↦ elim (Option-cases (a.users.find_one (λ v. v.username == u.username) t.users)) [
      | inl free ↦
          rw (new, free)
            (put_user-IsDirectory u.id u t refl
              (λ k v h e. absurd (
                ground (
                  arith,
                  a.users.find_one-none (λ v. v.username == u.username) t.users k v free h,
                  ==_iff v.username u.username,
                )))
              d)
      | inr (v, found) ↦ rw (new, found) d
    ]
    | inr old ↦ rw (old) d
  ]

  -- Another user who has the new username is found by the index.
  free_username :
      (id k : ObjectId) (username : String) (v : User) (t : AccountTables a)
      → IsDirectory t
      → a.users.find_one (taken_by a username id) t.users ≡ none
      → a.users.find k t.users ≡ some v
      → v.username ≡ username
      → k ≡ id
  free_username id k username v t d free h e = ground (
    arith,
    a.users.find_one-none (taken_by a username id) t.users k v free h,
    ==_iff v.username username,
    d.keyed k v h,
  )

  pub patched_user-IsDirectory :
      (id : ObjectId) (patch : User → User) (t : AccountTables a)
      → ((u : User) → (patch u).id ≡ u.id)
      → IsDirectory t
      → IsDirectory (patched_user a id patch t).1
  unfolding patched_user
  patched_user-IsDirectory id patch t keeps d = elim (Option-cases (a.users.find id t.users)) [
    | inl absent ↦ rw (patched_user, absent) d
    | inr (u, found) ↦
        let same = keeps u ∙ d.keyed id u found in
        elim (Bool-cases ((patch u).username == u.username)) [
          | inl kept ↦
              rw (patched_user, found, kept)
                (put_user-IsDirectory id (patch u) t same
                  (λ k v h e.
                    d.unique k id v u h found (e ∙ (==_iff (patch u).username u.username).0 kept))
                  d)
          | inr changed ↦
              elim (Option-cases (a.users.find_one (taken_by a (patch u).username id) t.users)) [
                | inl free ↦
                    rw (patched_user, found, changed, free)
                      (put_user-IsDirectory id (patch u) t same
                        (λ k v h e. free_username id k (patch u).username v t d free h e) d)
                | inr (v, taken) ↦ rw (patched_user, found, changed, taken) d
              ]
        ]
  ]

  abbrev pub KeepsDirectory : AccountTables a → AccountTables a → Type 0
  KeepsDirectory s t = IsDirectory s → IsDirectory t

  pub KeepsDirectory-IsPreorder : IsPreorder KeepsDirectory
  KeepsDirectory-IsPreorder = record { reflexive = λ s d. d; transitive = λ r s t f g d. g (f d) }

  same_users : (s t : AccountTables a) → s.users ≡ t.users → IsDirectory s → IsDirectory t
  same_users s t e d = record {
    keyed = λ k u h. d.keyed k u (ap (a.users.find k) e ∙ h);
    unique =
        λ k j u v h g. d.unique k j u v (ap (a.users.find k) e ∙ h) (ap (a.users.find j) e ∙ g);
  }

  pub insert_user-Steps : (u : User) → Steps KeepsDirectory (insert_user a u)
  unfolding insert_user
  insert_user-Steps u =
      Steps-call KeepsDirectory KeepsDirectory-IsPreorder (inserted a u) (inserted-IsDirectory u)

  pub update_user-Steps :
      (id : ObjectId) (patch : User → User)
      → ((u : User) → (patch u).id ≡ u.id)
      → Steps KeepsDirectory (update_user a id patch)
  unfolding update_user
  update_user-Steps id patch keeps =
      Steps-call KeepsDirectory KeepsDirectory-IsPreorder (patched_user a id patch)
        (λ t d. patched_user-IsDirectory id patch t keeps d)

  pub insert_session-Steps : (s : Session) → Steps KeepsDirectory (insert_session a s)
  unfolding insert_session
  insert_session-Steps s =
      Steps-call KeepsDirectory KeepsDirectory-IsPreorder (inserted_session a s) (λ t.
        elim (Option-cases (a.sessions.find s.id t.sessions)) [
          | inl new ↦ rw (inserted_session, new) (same_users t (put_session a s t) refl)
          | inr (old, found) ↦ rw (inserted_session, found) (λ d. d)
        ])

  pub drop_sessions-Steps : (p : Session → Bool) → Steps KeepsDirectory (modify (drop_sessions a p))
  drop_sessions-Steps p =
      Steps-modify KeepsDirectory KeepsDirectory-IsPreorder (drop_sessions a p)
        (λ t. same_users t (drop_sessions a p t) refl)

  pub remove_session-Steps :
      (sid : String)
      → Steps KeepsDirectory
          (modify (λ t. record t { sessions = a.sessions.remove sid t.sessions }))
  remove_session-Steps sid =
      Steps-modify KeepsDirectory KeepsDirectory-IsPreorder _
        (λ t. same_users t (record t { sessions = a.sessions.remove sid t.sessions }) refl)
