-- ===== src/Iso.antt =====
-- Package `iso`: the bitmaps, the field specification and the ISO 8583 messages.
pub mod BitSet
pub mod Spec
pub mod Message
pub mod Edit
pub mod Format
pub mod WellFormed
pub mod RoundTrip
pub mod Parsed
pub mod NoPanic
