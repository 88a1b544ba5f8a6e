-- ===== src/Wildcard.antt =====
-- wildcard/matcher.go: patterns of segments between separators, compiled to a regular expression.
pub mod Compile
pub mod Pattern
pub mod Reads
pub mod Endings
pub mod DoubleStar
pub mod Correct
pub mod Outcome
pub mod Literal
pub mod Subtree
pub mod Separators
mod Tests
pub mod Lists
