-- ===== src/Examples.antt =====
-- Concrete instances of the parameters, tests of the definitions, and the theorems at inputs of interest.
pub mod Whole
pub mod Memory
pub mod Ledgers
pub mod Snapshots
mod History
mod Access
mod Accounts
mod Admins
mod Sheets
mod Purchases
mod Services
mod Jobs
mod Dividends
