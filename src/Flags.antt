-- ===== src/Flags.antt =====
-- main.go: the command line's flags and their validation.
pub mod Validate
pub mod Modes
pub mod Samples
mod Tests
