-- ===== src/Proxy.antt =====
-- proxy/proxy.go: the proxy, its handlers and its shutdown.
pub mod Handshake
pub mod Copy
pub mod HalfClose
pub mod Header
pub mod Handler
pub mod Callers
pub mod Steps
pub mod Counts
pub mod Invariant
pub mod Wait
pub mod Drain
mod Tests
