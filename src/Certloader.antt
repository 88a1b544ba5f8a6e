-- ===== src/Certloader.antt =====
-- certloader/: certificates that are reloaded at run time, from a keystore, from a PKCS#11 module
-- or from the system's keychain, and the dialer that uses them.
pub mod Source
pub mod Keystore
pub mod Pkcs11
pub mod Keychain
pub mod Reload
pub mod Store
pub mod Total
pub mod Builds
pub mod Reloads
pub mod Keys
pub mod Identities
pub mod Dialer
mod Tests
