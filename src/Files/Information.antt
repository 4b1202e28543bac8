-- ===== src/Files/Information.antt =====
-- The protocol files of the information operation (lib/arinc_615a/files/information).
pub mod LoadConfigurationList
pub mod StatusFile
