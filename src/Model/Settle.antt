-- ===== src/Model/Settle.antt =====
-- The two settlements of a request, PreConsumeTokenQuota and PostConsumeTokenQuota
-- (model/token.go), seen from the accounts.
pub mod Step
pub mod Refund
pub mod Post
