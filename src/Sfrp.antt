-- ===== src/Sfrp.antt =====
-- sfrp, the proxy on top of the library.
pub mod Proxylib
