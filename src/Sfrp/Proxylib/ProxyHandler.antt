-- ===== src/Sfrp/Proxylib/ProxyHandler.antt =====
-- sfrp/proxylib/proxy_handler.{hpp,cpp}: the two connections of a client and its server, and what
-- passes between them.
pub mod World
pub mod ServerConnect
pub mod HandleStream
pub mod HandleEvent
pub mod Lifecycle
pub mod Contract
pub mod Invariant
pub mod Reads
pub mod Processes
pub mod Polls
pub mod Connects
pub mod Rounds
pub mod Ends
pub mod Notifies
pub mod Handles
pub mod Stalls
