-- ===== src/Lib.antt =====
-- Portfolio dashboard: the backend's core.
--
-- The backend (Go, under backend/) keeps the holdings of its users, a ledger of transactions for each
-- holding, and one snapshot of the portfolio for each day. A write to a ledger replays it and stores
-- the position on the holding; a backdated write also heals the stored snapshots.
--
-- Modules and the code they model (paths are below backend/internal/ unless they say otherwise):
-- - Prelude: tests, lists, association lists for Go's maps, sorting by insertion for sort.SliceStable.
-- - Double, DoubleLaws: `float64` as an abstract type with the operations the code uses. No theorem
--   assumes more of it than DoubleLaws names, and a theorem that does says so.
-- - Clock: `time.Time` as nanoseconds in UTC since Go's zero time; services/clock.go.
-- - Errors, Exec: the errors that the code tells apart, and services as state passing functions. The
--   environment decides for each database call whether it fails; what was written stays written. A call
--   that fails was not applied: a write whose answer is lost, as in a timeout, is outside the model.
-- - Collection, Mongo: the database interface and its three collections; the driver is a parameter.
-- - Domain: domain/transaction.go and domain/holding.go.
-- - Ledger: RecomputePosition of services/ledger.go.
-- - Snapshot: domain/snapshot.go. SnapshotStore: persistence/snapshots.go.
-- - Heal: RecomputeFrom of services/snapshot_recompute.go, and CurrencyOf of services/snapshot.go.
-- - Transactions: services/transactions.go and services/position.go: Create, Update and Delete.
-- - History: services/history.go: List, Add, PatchRegions, Delete and Paste.
-- - Imports: the occurrence rule, the keys and the lookup window of services/dividend_import.go, and
--   domain/dividend.go.
-- - Gold: the overlay of services/gold_history.go, and domain/gold.go.
-- - Received: the overlay of services/dividend_history.go.
-- - Access: domain/user.go, domain/session.go, httpserver/auth.go and persistence/sessions.go: who may
--   reach which route, and whom a session cookie logs in.
-- - Account: controllers/auth.go, controllers/session.go, persistence/users.go and auth/: signup, login,
--   logout, the recovery of a password, and the requests on one's own account.
-- - Admin: controllers/admin.go, and the deletions of persistence/ that it calls: the requests of admins
--   on the accounts. Admin.Platform puts the collections of all stores together.
-- - SnapshotJob: BuildSnapshot and Run of services/snapshot.go.
-- - Examples: concrete instances of the parameters, and the theorems at concrete inputs.
--
-- The loops are structural recursions over lists, so there is no fuel. An `int64` is its bit pattern
-- below 2 ^ 64 and its sum wraps around. A map is iterated in the order of its association list, which
-- Go leaves open; the sums of the totals may depend on it, as in the code. `strings.ToUpper` and fresh
-- ids are arguments. A calendar day as text is its day number, the answer of `time.Parse` an argument, and
-- the first instants of a month and of the next are arguments of a paste. A decoding of a session id is a
-- test that is an argument. One request reads the clock once.
-- `Credentials` holds bcrypt, the trimming and lower case of texts, and what else the accounts take from
-- libraries; `HexIds` reads and writes an id as hexadecimal digits. The job's price source is a function
-- from a holding to its quote, and the cancellation of its context is a database call that fails.
--
-- Not modelled: the generated API code (backend/api), configuration, database connections, logging,
-- telemetry, the command line, the price sources and the frontend (frontend/). Of a service, what only
-- copies fields into a response is left out, as are the log lines and the cookies. Not modelled either: the
-- holdings and portfolio services, the rest of the gold service, the dividend tab, the trade import, the
-- commit of the dividend import, the investment delta, the routes on which an admin acts as a user, and
-- the controllers that only translate requests.
pub mod Prelude
pub mod Double
pub mod DoubleLaws
pub mod Access
pub mod Account
pub mod Admin
pub mod SnapshotJob
pub mod Clock
pub mod Errors
pub mod Domain
pub mod Ledger
pub mod Exec
pub mod Collection
pub mod Snapshot
pub mod Mongo
pub mod SnapshotStore
pub mod Gold
pub mod Received
pub mod Heal
pub mod Imports
pub mod History
pub mod Transactions
pub mod Examples
