-- ===== src/Desktop.antt =====
-- crates/tusher-desktop: the services with the dashboard over HTTP, the tray and the entry in the
-- context menu of the Windows Explorer.
pub mod Shell
pub mod Tray
pub mod Web
pub mod Subcommands
