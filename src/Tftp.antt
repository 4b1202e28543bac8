-- ===== src/Tftp.antt =====
-- The TFTP operations of ARINC 615A (lib/arinc_615a/tftp).
pub mod Options
pub mod Client
pub mod Server
