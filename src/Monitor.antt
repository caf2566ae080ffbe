-- ===== src/Monitor.antt =====
-- Channel monitoring (monitor/).
pub mod Metric
