-- ===== src/Model/Balance.antt =====
-- The accounts behind the quota operations of model/token.go, model/user.go, model/channel.go and
-- model/utils.go.
pub mod Account
pub mod Pending
pub mod Flush
pub mod Round
pub mod Calls
pub mod Modes
pub mod Refinement
