-- ===== src/Tests.antt =====
-- Runs of the model on concrete input.
pub mod Runs
pub mod Examples
pub mod Servers
pub mod Clients
pub mod Desk
pub mod Viewer
pub mod Tools
pub mod Threads
pub mod Agents
pub mod Journey
