-- ===== src/Sfrp/Proxylib.antt =====
-- sfrp/proxylib: what the proxy keeps for a connection.
pub mod PipelineQueue
pub mod StreamHandler
pub mod ProxyHandler
