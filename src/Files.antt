-- ===== src/Files.antt =====
-- The protocol files (lib/arinc_615a/files): their building blocks, and one module for each file.
pub mod ProtocolFile
pub mod Text
pub mod Frame
pub mod Counted
pub mod Pairs
pub mod StatusPayload
pub mod InitializationFile
pub mod Ratio
pub mod ProtocolFilename
pub mod Download
pub mod Upload
pub mod Information
