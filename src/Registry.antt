-- ===== src/Registry.antt =====
-- The package registry/: the stores that the gateway keeps its session in.
pub mod Agents
pub mod Contexts
pub mod Limits
pub mod Resolved
pub mod Http
pub mod Fetch
pub mod Clients
pub mod CallerCards
pub mod Inbox
