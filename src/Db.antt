-- ===== src/Db.antt =====
-- The database: tables with the statements that the repositories build, rows, and ordered reads.
pub mod Table
pub mod Order
pub mod Rows
pub mod Repository
