-- ===== src/Proxy.antt =====
-- lib/proxy
pub mod ErrorCode
pub mod Multiplex
pub mod Robust
mod Tests
