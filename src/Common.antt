-- ===== src/Common.antt =====
-- The shared packages (common/).
pub mod RateLimit
pub mod Verification
