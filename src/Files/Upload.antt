-- ===== src/Files/Upload.antt =====
-- The protocol files of the upload operation (lib/arinc_615a/files/upload).
pub mod RequestFile
pub mod StatusFile
