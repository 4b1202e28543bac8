-- ===== src/Host.antt =====
-- The operations of a data loader (lib/arinc_615a/host/implementation).
pub mod Operation
pub mod Status
pub mod DownloadInformation
pub mod Upload
pub mod Download
pub mod Information
