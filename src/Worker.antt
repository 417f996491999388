-- ===== src/Worker.antt =====
-- lib/worker and lib/core/python.ts: the process that runs an application.
pub mod Async
pub mod Python
pub mod Spawn
pub mod Launch
pub mod Bookmarks
pub mod Process
mod Tests
