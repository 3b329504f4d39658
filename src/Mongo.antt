-- ===== src/Mongo.antt =====
-- The document database that persistence/ works on: one collection for each store, behind its interface.
use portfolio_dashboard.Prelude.{◌≡◌, ◌↔◌, Bool, true, ◌&&◌, Eq, nat_eq, arith, nat_beq}
use portfolio_dashboard.Clock.{Time}
use portfolio_dashboard.Domain.{ObjectId, Transaction, Holding}
use portfolio_dashboard.Snapshot.{PortfolioSnapshot}
use portfolio_dashboard.Collection.{Collection}

-- The unique index of `portfolio_snapshots`: the owner and the UTC midnight.
abbrev pub SnapshotKey : Type 0
SnapshotKey = ObjectId × Time

abbrev snapshot_key_beq : SnapshotKey → SnapshotKey → Bool
snapshot_key_beq (u, t) (v, s) = nat_beq u v && nat_beq t s

pub snapshot_key_beq_iff : (a b : SnapshotKey) → (snapshot_key_beq a b ≡ true) ↔ (a ≡ b)
snapshot_key_beq_iff (u, t) (v, s) = ground arith

instance abbrev pub snapshot_key_eq : Eq SnapshotKey
snapshot_key_eq = record { same = snapshot_key_beq; same_iff = snapshot_key_beq_iff }

pub record Mongo (F : Type 0) : Type 1 where
  pub snapshots : Collection SnapshotKey (PortfolioSnapshot F)
  pub transactions : Collection ObjectId (Transaction F)
  pub holdings : Collection ObjectId (Holding F)

pub record Tables (F : Type 0) (m : Mongo F) : Type 0 where
  pub snapshots : m.snapshots.State
  pub transactions : m.transactions.State
  pub holdings : m.holdings.State
