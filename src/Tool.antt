-- ===== src/Tool.antt =====
-- The handlers of the gateway's tools, internal/tool/, over the stores of a session.
pub mod Session
pub mod Connect
pub mod Disconnect
pub mod Parts
pub mod Input
pub mod Poll
pub mod Background
pub mod Retry
pub mod Stream
pub mod Send
pub mod Broadcast
pub mod Discover
pub mod Ping
pub mod Reading
pub mod Tasks
pub mod Overview
