-- ===== src/Web.antt =====
-- The web interface: src/web.
pub mod Auth
pub mod Multipart
