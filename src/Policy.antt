-- ===== src/Policy.antt =====
-- policy/: the proxy policy of redirects and rewrites.
pub mod Wildcard
pub mod Occurrences
pub mod Glob
pub mod Single
pub mod Pattern
pub mod Agree
pub mod Read
pub mod Escape
pub mod Unescape
mod Examples
