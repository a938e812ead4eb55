-- ===== src/Proxy.antt =====
-- The proxy server of p6/starter-code: its priority queue, its HTTP helpers and its threads.
pub mod Queue
pub mod Http
pub mod Parse
pub mod Listener
pub mod Worker
pub mod Settings
pub mod Threads
mod Tests
