-- ===== src/Router.antt =====
-- router/: the match of paths against route patterns.
pub mod Bytes
pub mod Pattern
pub mod Table
pub mod Order
pub mod Best
pub mod Safe
pub mod Accept
pub mod Slices
pub mod Print
mod Examples
