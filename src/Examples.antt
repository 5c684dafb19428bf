-- ===== src/Examples.antt =====
-- Concrete inputs for the theorems, and the runs of the models on them.
pub mod Fixtures
pub mod Health
pub mod Inbox
pub mod Stores
pub mod History
pub mod Directory
pub mod Tool
pub mod Agents
pub mod Messages
pub mod Broadcasts
pub mod Stream
pub mod Retry
pub mod Sending
pub mod Gateway
pub mod Tools
pub mod Cards
