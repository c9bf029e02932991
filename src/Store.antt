-- ===== src/Store.antt =====
-- The database that every store of the program shares, and the outside world: the tables of
-- migrations/*.sql, statements that may fail, the clock and the random source; and the runner of
-- the migration scripts.
pub mod Tables
pub mod Exec
pub mod Keeps
pub mod Runs
pub mod Migrate
mod Tests
