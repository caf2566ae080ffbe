-- ===== src/Model.antt =====
-- The data layer (model/).
pub mod Store
pub mod Rows
pub mod Batch
pub mod Quota
pub mod Balance
pub mod Settle
pub mod Cache
pub mod Channels
pub mod Redemption
pub mod Access
pub mod Tokens
pub mod Accounts
pub mod VscodeSessions
