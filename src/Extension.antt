-- ===== src/Extension.antt =====
-- src/lib.rs and src/dynamic_core.rs: the extension and the core that it loads.
pub mod Utf8
pub mod Results
pub mod Protocols
pub mod Runtime
pub mod Core
pub mod Platform
pub mod Bundle
pub mod Hoare
pub mod Entry
pub mod Build
pub mod Tables
pub mod Vtab
pub mod Names
pub mod Diagnostics
pub mod Listing
pub mod Queries
pub mod Simulation
pub mod Unavailable
pub mod Servers
pub mod Serving
pub mod Examples
pub mod Loading
pub mod Starting
