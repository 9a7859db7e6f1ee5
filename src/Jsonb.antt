-- ===== src/Jsonb.antt =====
-- Package `jsonb`: the reader over a mutable byte buffer and its operations.
pub mod Types
pub mod Outcome
pub mod Reader
pub mod Str
pub mod Skip
pub mod Number
pub mod Array
pub mod Value
pub mod Codec
mod Tests
