-- ===== src/Types.antt =====
-- The column types of types/.
pub mod Key
