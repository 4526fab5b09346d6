-- ===== src/Db.antt =====
-- src/db.rs: each statement as a function on the tables, or into a result.
pub mod Schema
pub mod Result
pub mod Write
pub mod Gaps
pub mod Pools
pub mod Integrity
