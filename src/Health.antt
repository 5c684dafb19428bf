-- ===== src/Health.antt =====
-- The package health/: the tracker of consecutive failures, the classification of errors, and the
-- URL of a liveness check.
pub mod Tracker
pub mod Classify
pub mod Ping
