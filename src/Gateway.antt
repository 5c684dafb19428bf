-- ===== src/Gateway.antt =====
-- gateway/: the server that holds the stores, and its set-up.
pub mod Config
pub mod Server
pub mod Timeouts
pub mod Soundness
