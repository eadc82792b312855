-- ===== src/Shutdown.antt =====
-- shutdown/: the manager of shutdown hooks.
pub mod Hooks
pub mod Manager
pub mod Grouping
pub mod Ordering
