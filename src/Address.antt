-- ===== src/Address.antt =====
-- main.go: addresses of listeners, targets and the status port, with `net.SplitHostPort`.
pub mod HostPort
pub mod Parse
pub mod Local
pub mod Join
mod Tests
