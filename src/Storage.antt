-- ===== src/Storage.antt =====
-- crates/storage: the archive of readings, in files or in a database.
pub mod Csv
pub mod Writer
