-- ===== src/Config/Schema.antt =====
-- lib/config/schema.js: the rules of the directives, and their application to the tree of nodes.
pub mod Types
pub mod Numbers
pub mod Results
pub mod Rules
pub mod Apply
pub mod Binding
pub mod Created
pub mod Typed
pub mod Conforms
mod Tests
