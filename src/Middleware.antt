-- ===== src/Middleware.antt =====
-- The gates in front of the handlers (middleware/).
pub mod Auth
pub mod Session
pub mod Distributor
