-- ===== src/Time.antt =====
-- Time: src/time.
pub mod Math
