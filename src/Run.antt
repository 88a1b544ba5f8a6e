-- ===== src/Run.antt =====
-- main.go and tls.go: a run of the tunnel, from its flags to its listener and its signals.
pub mod System
pub mod Certificates
pub mod Server
pub mod Client
pub mod Laws
pub mod Starts
pub mod Access
pub mod Succeeds
pub mod Returns
pub mod Dials
pub mod Accepts
pub mod Builds
pub mod Process
pub mod Ends
pub mod Exits
pub mod ClientExits
pub mod Panics
pub mod Samples
mod Tests
