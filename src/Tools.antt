-- ===== src/Tools.antt =====
-- The programs under tools.
pub mod Publisher
pub mod Console
