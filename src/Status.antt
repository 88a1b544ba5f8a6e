-- ===== src/Status.antt =====
-- status.go: the status that the tunnel shows at `/_status`.
pub mod Handler
pub mod Laws
pub mod Routes
mod Tests
