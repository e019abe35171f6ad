-- ===== src/Viewer.antt =====
-- The log viewer, dlv.
pub mod Events
pub mod Widgets
pub mod Desktop
pub mod Bars
pub mod Page
pub mod App
pub mod Frame
pub mod Dialog
