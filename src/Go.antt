-- ===== src/Go.antt =====
-- The functions of Go's standard library that the sources use on texts.
pub mod Decimal
pub mod Escape
pub mod Split
pub mod Base64
