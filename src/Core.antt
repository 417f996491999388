-- ===== src/Core.antt =====
-- lib/core: helpers that the other parts share.
pub mod Tail
pub mod Serialized
mod Tests
