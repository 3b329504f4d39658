-- ===== src/Admin.antt =====
-- controllers/admin.go: the requests of admins, on the accounts and on everything else that is stored. An id in
-- a request is text; `from_hex` is whether it is an object id, and which.
pub mod Platform
pub mod Handlers
pub mod Requests
pub mod Target
pub mod Reach
pub mod Scope
pub mod Owner
pub mod Deletion
use portfolio_dashboard.Prelude.{◌≡◌, Option, some, String}
use portfolio_dashboard.Domain.{ObjectId}

-- `ObjectID.Hex` and `ObjectIDFromHex`: the id of a text is not always the text of that id, since upper case
-- is read too.
pub record HexIds : Type 0 where
  pub hex : ObjectId → String
  pub from_hex : String → Option ObjectId
  pub from_hex-hex : (id : ObjectId) → from_hex (hex id) ≡ some id
