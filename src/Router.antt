-- ===== src/Router.antt =====
-- The routers: which app, if any, answers a request.
pub mod Paths
pub mod Sequence
pub mod AppDir
pub mod Directory
pub mod Scores
pub mod RunAs
pub mod AppSettings
pub mod LocalConfig
pub mod Locations
pub mod ConfigRouter
pub mod UserDirs
mod Tests
