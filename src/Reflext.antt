-- ===== src/Reflext.antt =====
-- The reflect cache's view of a struct: `getCodec` and `parseTag` of reflext/reflext.go.
pub mod Tag
pub mod Walk
pub mod Ends
pub mod Properties
pub mod Distinct
mod Tests
