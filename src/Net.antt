-- ===== src/Net.antt =====
-- The network services: src/net.
pub mod ShellPath
