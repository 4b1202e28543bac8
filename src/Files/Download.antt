-- ===== src/Files/Download.antt =====
-- The protocol files of the download operations (lib/arinc_615a/files/download).
pub mod AnswerFile
pub mod ListFile
pub mod StatusFile
pub mod RequestFile
