-- ===== src/Files.antt =====
-- The file service: src/files.
pub mod Upload
