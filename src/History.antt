-- ===== src/History.antt =====
-- The package history/: the entries, the two backends and the recorder.
pub mod Entries
pub mod Memory
pub mod File
pub mod Recorder
