-- ===== src/Payload.antt =====
-- The payload decoder: api-gateway/src/services/payload-decoder.ts.
pub mod Normalize
pub mod Fields
pub mod Encode
pub mod Objects
pub mod RoundTrip
pub mod Indices
mod Tests
