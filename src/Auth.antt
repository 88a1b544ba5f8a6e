-- ===== src/Auth.antt =====
-- auth/auth.go: access control lists for mutually authenticated connections.
pub mod Ip
pub mod Acl
pub mod Sets
pub mod Verify
pub mod Policy
pub mod Uris
mod Tests
