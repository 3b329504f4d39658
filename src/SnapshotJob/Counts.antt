-- ===== src/SnapshotJob/Counts.antt =====
-- services/snapshot.go: every user of a run is counted, as a success or with the error of its job.
use portfolio_dashboard.Prelude.{
  ℕ, suc, ◌+◌, ◌≡◌, refl, sym, ◌∙◌, ap, inl, inr, Bool, false, Option, none, some, List, [], ◌∷◌,
  String, nat_eq, nat_beq, arith, Bool-cases, length, All, if◌then◌else◌,
}
use portfolio_dashboard.Prelude.Assoc.{Assoc, lookup, insert, lookup-insert, lookup-insert_self}
use portfolio_dashboard.Clock.{Time}
use portfolio_dashboard.Double.{Double}
use portfolio_dashboard.Errors.{Error, Result, ok, err}
use portfolio_dashboard.Domain.{ObjectId, Holding}
use portfolio_dashboard.Snapshot.{PortfolioSnapshot}
use portfolio_dashboard.Exec.{World, Exec, pure, gets, continue, ◌>>=◌}
use portfolio_dashboard.SnapshotStore.{upsert}
use portfolio_dashboard.Access.{User}
use portfolio_dashboard.Admin.Platform.{Platform, PlatformTables}
use portfolio_dashboard.SnapshotJob.{
  RunReport, build_snapshot, within_portfolios, store_snapshot, run_user, run_users, settled,
  with_failure, with_success,
}

length-insert :
    {A : Type 0} (k : ObjectId) (v : A) (m : Assoc ObjectId A)
    → lookup k m ≡ none
    → length (insert k v m) ≡ suc (length m)
unfolding lookup insert
length-insert k v [] h = refl
length-insert k v ((j, w) ∷ m) h = ground (arith, length-insert k v m)

-- No two users of the list have the same id.
abbrev pub AreDifferent : List User → Type 0
AreDifferent [] = Unit
AreDifferent (u ∷ us) = All (λ v. nat_beq u.id v.id ≡ false) us × AreDifferent us

abbrev pub counted : RunReport → ℕ
counted r = r.succeeded + length r.user_errors

-- The user has no error in the report.
abbrev pub IsNew : RunReport → User → Type 0
IsNew r u = lookup u.id r.user_errors ≡ none

module _ {F : Type 0} ⦃d : Double F⦄ (p : Platform F) (to_upper : String → String)
    (quote : ObjectId → Holding F → Option F) (now date : Time) (dry_run : Bool) where
  -- What the job does for one user.
  abbrev pub job : User → Exec (PlatformTables F p) (Unit {0})
  job u =
      within_portfolios p to_upper quote (build_snapshot p.mongo to_upper quote u.id date)
      >>= λ snap.
          if dry_run then pure tt else within_portfolios p to_upper quote (upsert p.mongo now snap)

  -- A success counts one more; an error is kept under the user's id, and no other entry changes.
  abbrev pub Reports : ObjectId → RunReport → Result (Unit {0}) → RunReport → Type 0
  Reports uid report (ok done) next =
      (next.succeeded ≡ report.succeeded + 1) × (next.user_errors ≡ report.user_errors)
  Reports uid report (err e) next =
      (next.succeeded ≡ report.succeeded)
      × (lookup uid next.user_errors ≡ some e)
      × (length next.user_errors ≡ suc (length report.user_errors))
      × ((other : ObjectId)
          → nat_beq uid other ≡ false
          → lookup other next.user_errors ≡ lookup other report.user_errors)

  Reports-failure :
      (uid : ObjectId) (report : RunReport) (e : Error)
      → lookup uid report.user_errors ≡ none
      → Reports uid report (err e) (with_failure p to_upper quote uid e report)
  unfolding with_failure
  Reports-failure uid report e new = (
    refl,
    lookup-insert_self uid e report.user_errors,
    length-insert uid e report.user_errors new,
    λ other different. ground (arith, lookup-insert uid other e report.user_errors),
  )

  settled-Reports :
      (uid : ObjectId) (report : RunReport) (r : Result (Unit {0}))
      → lookup uid report.user_errors ≡ none
      → Reports uid report r (settled p to_upper quote uid report r)
  settled-Reports uid report (ok done) new = (refl, refl)
  settled-Reports uid report (err e) new = Reports-failure uid report e new

  -- The report of a step, and the world after it, against what the job answers.
  abbrev Agrees :
      ObjectId
      → RunReport
      → Result RunReport × World (PlatformTables F p)
      → Result (Unit {0}) × World (PlatformTables F p)
      → Type 0
  Agrees uid report s r =
      (next : RunReport) × (s.0 ≡ ok next) × Reports uid report r.0 next × (s.1 ≡ r.1)

  store_snapshot-Agrees :
      (uid : ObjectId) (report : RunReport) (b : Result (PortfolioSnapshot F))
      (v : World (PlatformTables F p))
      → lookup uid report.user_errors ≡ none
      → Agrees uid report (store_snapshot p to_upper quote now dry_run uid report b v) (
          continue b
            (λ snap.
              if dry_run
              then pure tt
              else within_portfolios p to_upper quote (upsert p.mongo now snap))
            v)
  unfolding store_snapshot
  store_snapshot-Agrees uid report (err e) v new =
      (with_failure p to_upper quote uid e report, refl, Reports-failure uid report e new, refl)
  store_snapshot-Agrees uid report (ok snap) v new = elim (Bool-cases dry_run) [
    | inl dry ↦
        rw (store_snapshot, dry) (with_success p to_upper quote report, refl, (refl, refl), refl)
    | inr wet ↦
        let r = (within_portfolios p to_upper quote (upsert p.mongo now snap) v).0 in
        rw (store_snapshot, wet)
          (settled p to_upper quote uid report r, refl, settled-Reports uid report r new, refl)
  ]

  run_user-Agrees :
      (report : RunReport) (u : User) (w : World (PlatformTables F p))
      → IsNew report u
      → Agrees u.id report (run_user p to_upper quote now dry_run date report u w) (job u w)
  unfolding run_user
  run_user-Agrees report u w new =
      let b =
        within_portfolios p to_upper quote (build_snapshot p.mongo to_upper quote u.id date) w in
      store_snapshot-Agrees u.id report b.0 b.1 new

  Reports-counted :
      (uid : ObjectId) (report next : RunReport) (r : Result (Unit {0}))
      → Reports uid report r next
      → counted next ≡ suc (counted report)
  Reports-counted uid report next (ok done) h = omega (arith, h.0, ap length h.1)
  Reports-counted uid report next (err e) h = omega (arith, h.0, h.2)

  Reports-IsNew :
      (u v : User) (report next : RunReport) (r : Result (Unit {0}))
      → Reports u.id report r next
      → nat_beq u.id v.id ≡ false
      → IsNew report v
      → IsNew next v
  Reports-IsNew u v report next (ok done) h other new = ap (lookup v.id) h.1 ∙ new
  Reports-IsNew u v report next (err e) h other new = h.3 v.id other ∙ new

  still-IsNew :
      (report next : RunReport) (u : User) (us : List User) (r : Result (Unit {0}))
      → Reports u.id report r next
      → All (λ v. nat_beq u.id v.id ≡ false) us
      → All (IsNew report) us
      → All (IsNew next) us
  still-IsNew report next u [] r told other new = tt
  still-IsNew report next u (v ∷ vs) r told other new = (
    Reports-IsNew u v report next r told other.0 new.0,
    still-IsNew report next u vs r told other.1 new.1,
  )

  abbrev context_alive : Exec (PlatformTables F p) (Unit {0})
  context_alive = gets (λ t. tt)

  abbrev error_of : Result (RunReport × Option Error) → Option Error
  error_of (ok r) = r.1
  error_of (err e) = some e

  abbrev report_or : RunReport → Result (RunReport × Option Error) → RunReport
  report_or report (ok r) = r.0
  report_or report (err e) = report

  -- The context's answer, and what follows it.
  abbrev goes_on :
      RunReport
      → User
      → List User
      → Result (Unit {0})
      → Exec (PlatformTables F p) (RunReport × Option Error)
  goes_on report u rest alive = elim alive [
    | err e ↦ pure (report, some e)
    | ok x ↦ run_user p to_upper quote now dry_run date report u >>= λ next.
        run_users p to_upper quote now dry_run date next rest
  ]

  -- The reports of the loop, from one user to the next: each adds what the job of that user answers, in the
  -- world that the users before it have left and once the context was asked.
  abbrev pub Tells : RunReport → List User → World (PlatformTables F p) → RunReport → Type 0
  Tells report [] w last = report ≡ last
  Tells report (u ∷ rest) w last =
      let r = job u (context_alive w).1 in
      (next : RunReport) × Reports u.id report r.0 next × Tells next rest r.1 last

  goes_on-ok :
      (report last : RunReport) (u : User) (rest : List User) (alive : Result (Unit {0}))
      (w : World (PlatformTables F p))
      → IsNew report u
      → (goes_on report u rest alive w).0 ≡ ok (last, none)
      → (next : RunReport) × Reports u.id report (job u w).0 next
        × ((run_users p to_upper quote now dry_run date next rest (job u w).1).0 ≡ ok (last, none))
  goes_on-ok report last u rest (err e) w new h =
      let cancelled : some e ≡ none = ap (error_of) h in absurd (ground arith)
  goes_on-ok report last u rest (ok x) w new h =
      let step = run_user p to_upper quote now dry_run date report u in
      let more = λ (r : RunReport). run_users p to_upper quote now dry_run date r rest in
      let (next, answer, told, after) = run_user-Agrees report u w new in
      (
        next,
        told,
        sym (ap (λ r. (continue r more (step w).1).0) answer ∙ ap (λ v. (more next v).0) after) ∙ h,
      )

  -- A run over different users that is not cancelled counts every one of them once: as one more success if the
  -- job of the user, which builds the snapshot and except in a dry run stores it, ends well, and with the
  -- error under the user's id if it does not, whichever calls of the database fail.
  pub run_users-counted :
      (report last : RunReport) (users : List User) (w : World (PlatformTables F p))
      → AreDifferent users
      → All (IsNew report) users
      → (run_users p to_upper quote now dry_run date report users w).0 ≡ ok (last, none)
      → (counted last ≡ counted report + length users) × Tells report users w last
  unfolding run_users
  run_users-counted report last [] w different new h =
      let same : report ≡ last = ap (report_or report) h in
      (ap counted (sym same) ∙ omega arith, same)
  run_users-counted report last (u ∷ rest) w different new h =
      let asked = context_alive w in
      let (next, told, more) = goes_on-ok report last u rest asked.0 asked.1 new.0 h in
      let r = job u asked.1 in
      let (all, tells) =
        run_users-counted next last rest r.1 different.1
          (still-IsNew report next u rest r.0 told different.0 new.1) more in
      (omega (arith, all, Reports-counted u.id report next r.0 told), (next, told, tells))
