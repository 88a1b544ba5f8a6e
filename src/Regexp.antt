-- ===== src/Regexp.antt =====
-- The part of Go's package `regexp` that the wildcard matcher uses: `QuoteMeta`, `Compile` and
-- `Match` on texts built of literals, escapes, `^ $ . ( | ) * + ?` and classes `[^c]`.
pub mod Syntax
pub mod Engine
pub mod Parse
mod Tests
