-- ===== src/Load.antt =====
-- runtime/src/load/resolve.rs: from the command line and the configuration to the library and the
-- flash image that an instance loads.
pub mod Paths
pub mod Entry
pub mod Resolve
mod Tests
