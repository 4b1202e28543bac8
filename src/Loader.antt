-- ===== src/Loader.antt =====
-- The data loader application above the operations of a data loader (lib/arinc_615a_dla_qt).
pub mod Signals
pub mod Upload
pub mod Download
