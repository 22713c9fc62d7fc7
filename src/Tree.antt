-- ===== src/Tree.antt =====
-- tree.go: the radix tree of the routes of one HTTP method.
pub mod Scan
pub mod Node
pub mod Insert
pub mod Lookup
pub mod Pattern
pub mod Shape
pub mod Routes
mod Tests
