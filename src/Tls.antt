-- ===== src/Tls.antt =====
-- tls.go: cipher suites, the CA bundle, the TLS configuration and the choice of a certificate.
pub mod Suites
pub mod Config
pub mod Laws
mod Tests
