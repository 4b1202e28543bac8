-- ===== src/Find.antt =====
-- The FIND protocol (lib/arinc_615a/find): packets, their dispatch, the query and the server.
pub mod Packet
pub mod Handler
pub mod Query
pub mod Server
pub mod Exchange
