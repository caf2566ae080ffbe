-- ===== src/Relay.antt =====
-- The relay of requests (relay/controller and controller/relay.go).
pub mod Text
pub mod Retry
pub mod Image
pub mod Ratio
