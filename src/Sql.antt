-- ===== src/Sql.antt =====
-- repository/validation.go: the checks of SQL fragments.
pub mod Words
pub mod Columns
pub mod Checks
pub mod Clean
pub mod OrderBy
