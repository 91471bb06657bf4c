-- ===== src/Storage.antt =====
-- Storage: src/storage.
pub mod Path
