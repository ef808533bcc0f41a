-- ===== src/Wire.antt =====
-- The bytes of ids, integers and calls: packages/native/src/codec.ts
pub mod Bytes
pub mod Calls
pub mod Reading
pub mod Compact
pub mod Fields
pub mod Parsing
pub mod CallTrip
pub mod Payload
pub mod Decoding
pub mod TextTrip
pub mod Trip
pub mod DeployTrip
pub mod FeeTrip
pub mod AssetTrip
pub mod PayloadTrip
pub mod Exact
mod Tests
