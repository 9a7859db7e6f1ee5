-- ===== src/Sql/Schema.antt =====
-- `GetColumn` of sql/schema/schema.go and the column builders of sql/dialect/mysql/schema.go.
pub mod Types
pub mod Base
pub mod Texts
pub mod Build
pub mod Stored
mod Tests
