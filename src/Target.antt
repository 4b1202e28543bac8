-- ===== src/Target.antt =====
-- The operations of a target (lib/arinc_615a/target/implementation).
pub mod Operation
pub mod Transmission
pub mod Requests
pub mod Upload
pub mod Download
pub mod Information
pub mod Protocol
