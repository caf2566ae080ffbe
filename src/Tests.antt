-- ===== src/Tests.antt =====
-- The theorems at concrete inputs.
mod Sorting
mod Data
mod Ledger
mod Requests
mod Limits
mod Distribution
mod Accounts
mod Editor
