-- ===== src/Router/ConfigRouter.antt =====
-- lib/router/config-router.js: the routers that are made of the nodes of a configuration.
pub mod Paths
pub mod Nested
pub mod Hosting
pub mod Servers
pub mod Accepted
pub mod Listens
pub mod Permissions
mod Tests
