-- ===== src/Signals.antt =====
-- signals.go, unix.go and windows.go: signals, and the reloads that they and the timer ask for.
pub mod Handler
pub mod Laws
pub mod Events
mod Tests
