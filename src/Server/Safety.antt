-- ===== src/Server/Safety.antt =====
-- No handler of the server touches a connection that has been deleted, as long as no write fails.
pub mod Modes
pub mod Invariant
pub mod Writes
pub mod Parcels
pub mod Reads
pub mod Handlers
pub mod Run
pub mod Faults
