-- ===== src/SnapshotJob/Keeps.antt =====
-- services/snapshot.go: what a run of the job leaves alone.
use portfolio_dashboard.Prelude.{
  ◌≡◌, refl, sym, ◌∙◌, ap, Option, List, [], String, string_eq, nat_eq, arith,
}
use portfolio_dashboard.Clock.{Time}
use portfolio_dashboard.Double.{Double}
use portfolio_dashboard.Errors.{ok}
use portfolio_dashboard.Domain.{ObjectId, Holding}
use portfolio_dashboard.Snapshot.{HoldingSnapshot, PortfolioSnapshot}
use portfolio_dashboard.Mongo.{Mongo, Tables, snapshot_key_eq}
use portfolio_dashboard.Exec.{World, pure, ◌>>=◌}
use portfolio_dashboard.Exec.Steps.{Steps, IsPreorder, Steps-bind, Steps-read, Steps-pure, Steps-if}
use portfolio_dashboard.Exec.Success.{bind-ok}
use portfolio_dashboard.SnapshotStore.{latest_before}
use portfolio_dashboard.Heal.{list_holdings}
use portfolio_dashboard.SnapshotJob.{
  valued_lines, snapshot_of, prior_by_symbol, is_weekend, build_snapshot, lines_by_symbol,
}

module _ {F : Type 0} ⦃d : Double F⦄ (m : Mongo F) (to_upper : String → String) where
  abbrev Same : Tables F m → Tables F m → Type 0
  Same s t = t ≡ s

  order : IsPreorder Same
  order = record { reflexive = λ s. refl; transitive = λ r s t f g. g ∙ f }

  prior_by_symbol-Steps :
      (uid : ObjectId) (date : Time) → Steps Same (prior_by_symbol m to_upper uid date)
  unfolding prior_by_symbol latest_before
  prior_by_symbol-Steps uid date =
      Steps-if Same order (is_weekend date) _ _
        (λ h.
          Steps-bind Same order (latest_before m uid date) _ (Steps-read Same order _)
            (λ prev. Steps-pure Same order (lines_by_symbol prev)))
        (λ h. Steps-pure Same order [])

  -- Building a snapshot changes nothing.
  pub build_snapshot-stored :
      (quote : ObjectId → Holding F → Option F) (uid : ObjectId) (date : Time)
      (w : World (Tables F m))
      → (build_snapshot m to_upper quote uid date w).1.stored ≡ w.stored
  unfolding build_snapshot list_holdings
  build_snapshot-stored quote uid date w =
      (Steps-bind Same order (list_holdings m uid) _ (Steps-read Same order _) (λ holdings.
          Steps-bind Same order (prior_by_symbol m to_upper uid date) _
            (prior_by_symbol-Steps uid date)
            (λ prior.
              Steps-pure Same order
                (snapshot_of uid date (valued_lines to_upper (quote uid) date prior holdings))))).at
        w

  -- A built snapshot is that of some lines.
  pub build_snapshot-ok :
      (quote : ObjectId → Holding F → Option F) (uid : ObjectId) (date : Time)
      (w : World (Tables F m)) (snap : PortfolioSnapshot F)
      → (build_snapshot m to_upper quote uid date w).0 ≡ ok snap
      → (lines : List (HoldingSnapshot F)) × (snap ≡ snapshot_of uid date lines)
  unfolding build_snapshot
  build_snapshot-ok quote uid date w snap h =
      let (holdings, first, e) =
        bind-ok (list_holdings m uid)
          (λ hs. prior_by_symbol m to_upper uid date >>= λ prior.
            pure (snapshot_of uid date (valued_lines to_upper (quote uid) date prior hs)))
          w snap h in
      let (prior, second, f) =
        bind-ok (prior_by_symbol m to_upper uid date)
          (λ prior.
            pure (snapshot_of uid date (valued_lines to_upper (quote uid) date prior holdings)))
          (list_holdings m uid w).1 snap (sym (ap (λ r. r.0) e) ∙ h) in
      let same : ok snap
          ≡ ok (snapshot_of uid date (valued_lines to_upper (quote uid) date prior holdings)) =
        sym h ∙ ap (λ r. r.0) (e ∙ f) in
      (valued_lines to_upper (quote uid) date prior holdings, ground arith)
