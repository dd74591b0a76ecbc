-- ===== src/Network.antt =====
-- internal/network: connections, sending and the dispatch of incoming calls.
pub mod Pool
pub mod Transport
pub mod Router
