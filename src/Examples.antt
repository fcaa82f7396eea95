-- ===== src/Examples.antt =====
-- examples/: programs that use the server.
pub mod Basic
pub mod Proxy
