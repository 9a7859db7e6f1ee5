-- ===== src/Jsonb/Codec.antt =====
-- jsonb/encoder.go, decoder.go, marshal.go, unmarshal.go and the registry of registry.go that chooses among them by
-- the type of a value.
pub mod Types
pub mod Encode
pub mod Decode
pub mod Fits
pub mod Text
pub mod Tokens
pub mod Leaves
pub mod Raw
pub mod Lift
pub mod RoundTrip
pub mod Losses
pub mod Typed
pub mod Sound
pub mod Range
pub mod Tests
