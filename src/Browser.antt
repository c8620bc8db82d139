-- ===== src/Browser.antt =====
-- packages/browser/src: the host's side of the browser mode.
pub mod RunRegistry
pub mod WatchPlanner
pub mod Dispatch
mod Examples
