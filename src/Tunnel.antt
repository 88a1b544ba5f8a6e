-- ===== src/Tunnel.antt =====
-- main.go, signals.go and proxy/proxy.go together: the goroutines of a running tunnel.
pub mod Steps
pub mod Invariant
pub mod Serving
pub mod Ends
pub mod Calls
pub mod Pages
pub mod Race
pub mod Views
pub mod Refine
mod Tests
