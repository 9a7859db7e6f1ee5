-- ===== src/Sql.antt =====
-- The query side: primitives, the expression constructors, actions, the statement and its builder.
pub mod Outcome
pub mod Primitive
pub mod Stmt
pub mod Builder
pub mod Zero
pub mod Expr
pub mod Actions
pub mod Names
pub mod Insert
pub mod Migrate
pub mod Table
pub mod Modify
pub mod Index
pub mod Schema
pub mod Codec
pub mod Paginate
mod Tests
