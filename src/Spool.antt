-- ===== src/Spool.antt =====
-- The spool directory: where the files of groups and articles lie, and what the file system does.
pub mod Names
pub mod Disk
